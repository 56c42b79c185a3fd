-- ===== src/Reader/Validate/Verified.antt =====
-- What stands behind a report of `validate` of src/reader.rs.
use etar.Prelude.{
  ℕ, zero, suc, ◌+◌, ◌-◌, ◌≤◌, ◌<◌, ◌≡◌, refl, ap, subst, false, Option, none, some, Result, ok,
  err, arith, inl, inr,
}
use etar.Errors.{Error, IoError}
use etar.Limits.{SecurityLimits}
use etar.Io.{Shared, u64_mod, fetch_add}
use etar.Io.Await.{Awaited}
use etar.Open.OpenEntry.{OpenEntry}
use etar.Reader.{TarParser, Reader, new_reader, Called, next_entry}
use etar.Reader.Body.{lend, poll_entry}
use etar.Reader.Sequence.{entries_in, next_entry-FailsOrCounts}
use etar.Reader.Validate.{ValidationReport, Copier, copied, on_entry, validate_loop, validate}
use etar.Reader.Ended.{Ended, next_entry-Ended, next_entry-StaysOpen}

module _ {A B S : Type 0} (parser : TarParser A B S) (patience rounds : ℕ) (copy : Copier) where
  -- A call of `next_entry`, and the copy of the body of an entry that it hands out.
  abbrev pub call_of : Reader A → Shared → Called A (Option (OpenEntry B))
  call_of r sh = next_entry parser patience rounds r sh

  abbrev pub copy_of :
      Called A (Option (OpenEntry B))
      → OpenEntry B
      → Awaited (OpenEntry (B × Option A)) (Result ℕ IoError)
  copy_of c o =
      copy (OpenEntry (B × Option A)) (poll_entry parser) (lend o c.reader.archive) c.shared

  -- A number of entries, one after another, each handed out by a call and copied to its end with
  -- success; the reader and the counts before them and behind them.
  pub data Copies : Reader A → Shared → ℕ → Reader A → Shared → Type 0 where
    no_more : {r : Reader A} {sh : Shared} → Copies r sh 0 r sh
    one_copied :
        {r last : Reader A} {sh before : Shared} {count : ℕ} (o : OpenEntry B) (k : ℕ)
        → (call_of r sh).result ≡ some (ok (some o))
        → (copy_of (call_of r sh) o).result ≡ some (ok k)
        → Copies
            (record (call_of r sh).reader {
              archive = (copy_of (call_of r sh) o).state.body.inner.1;
            })
            (copy_of (call_of r sh) o).shared
            count
            last
            before
        → Copies r sh (count + 1) last before

  -- A report made by the reader `r` that goes on from `sh` with `n` entries counted: it copied as many
  -- more as the report counts, then came to the verified end, and reports the counts behind it.
  pub record IsReport (r : Reader A) (sh : Shared) (n : ℕ) (report : ValidationReport)
      : Type 0 where
    pub count : ℕ
    pub last : Reader A
    pub before : Shared
    pub copies : Copies r sh count last before
    pub ended : Ended parser patience rounds last before (call_of last before).shared
    pub entries : report.entries ≡ n + count
    pub few : report.entries ≤ r.limits.max_entries
    pub encoded : report.encoded_bytes ≡ (call_of last before).shared.encoded
    pub decoded : report.decoded_bytes ≡ (call_of last before).shared.decoded

  some_ok :
      (x y : ValidationReport)
      → ◌≡◌ {A = Option (Result ValidationReport Error)} (some (ok x)) (some (ok y))
      → x ≡ y
  some_ok x y h = cc

  abbrev More : Type 0
  More = Reader A → Shared → ℕ → Option (Result ValidationReport Error)

  -- A loop that makes a report has gone through the copy, and through the call before it.
  copied-ok :
      {X : Type 0} (more : More) (r : Reader A) (n : ℕ)
      (a : Awaited (OpenEntry (B × Option A)) (Result ℕ IoError)) (o : Option (Result ℕ IoError))
      (report : ValidationReport)
      → ((k : ℕ)
          → o ≡ some (ok k)
          → more (record r { archive = a.state.body.inner.1 }) a.shared (fetch_add n 1)
            ≡ some (ok report)
          → X)
      → copied parser patience rounds copy more r n a o ≡ some (ok report)
      → X
  unfolding copied
  copied-ok more r n a none report next h = absurd cc
  copied-ok more r n a (some (err e)) report next h = absurd cc
  copied-ok more r n a (some (ok k)) report next h = next k refl h

  on_entry-ok :
      {X : Type 0} (more : More) (n : ℕ) (c : Called A (Option (OpenEntry B)))
      (x : Option (Result (Option (OpenEntry B)) Error)) (report : ValidationReport)
      → (x ≡ some (ok none)
          → record {
            entries = n;
            encoded_bytes = c.shared.encoded;
            decoded_bytes = c.shared.decoded;
          }
            ≡ report
          → X)
      → ((o : OpenEntry B) (k : ℕ)
          → x ≡ some (ok (some o))
          → (copy_of c o).result ≡ some (ok k)
          → more
              (record c.reader { archive = (copy_of c o).state.body.inner.1 })
              (copy_of c o).shared
              (fetch_add n 1)
            ≡ some (ok report)
          → X)
      → on_entry parser patience rounds copy more n c x ≡ some (ok report)
      → X
  unfolding on_entry
  on_entry-ok more n c none report ended next h = absurd cc
  on_entry-ok more n c (some (err e)) report ended next h = absurd cc
  on_entry-ok more n c (some (ok none)) report ended next h = ended refl (some_ok _ _ h)
  on_entry-ok more n c (some (ok (some o))) report ended next h =
      copied-ok more c.reader n (copy_of c o) (copy_of c o).result report (λ k e. next o k refl e) h

  validate_loop-IsReport :
      (calls : ℕ) (r : Reader A) (sh : Shared) (n : ℕ) (report : ValidationReport)
      → r.done ≡ false
      → n ≡ r.seen
      → r.seen ≤ r.limits.max_entries
      → r.limits.max_entries < u64_mod - 1
      → validate_loop parser patience rounds copy calls r sh n ≡ some (ok report)
      → IsReport r sh n report
  unfolding validate_loop
  validate_loop-IsReport zero r sh n report open_ same small room h = absurd cc
  validate_loop-IsReport (suc calls) r sh n report open_ same small room h =
      let c = call_of r sh in
      on_entry-ok _ n c c.result report
        (λ none_ made. subst (IsReport r sh n) made (record {
          count = 0;
          last = r;
          before = sh;
          copies = no_more;
          ended = next_entry-Ended parser patience rounds r sh open_ none_;
          entries = omega arith;
          few = omega (arith, same, small);
          encoded = refl;
          decoded = refl;
        }))
        (λ o k handed copied_ h'.
          let one : entries_in parser patience rounds c.result ≡ 1 =
            ap (entries_in parser patience rounds) handed in
          elim (next_entry-FailsOrCounts parser patience rounds r sh small room) [
            | inl (x, z) ↦ absurd (omega (arith, z, one))
            | inr x ↦
                let a = copy_of c o in
                let limit = ap (λ l. l.max_entries) x.same_limits in
                let seen = x.seen in
                let fits = x.small in
                let rest =
                  validate_loop-IsReport calls (record c.reader { archive = a.state.body.inner.1 })
                    a.shared (fetch_add n 1) report
                    (next_entry-StaysOpen parser patience rounds r sh open_ one)
                    (omega (arith, seen, one, same, fits)) (omega (arith, fits, limit))
                    (omega (arith, limit)) h' in
                record {
                  count = rest.count + 1;
                  last = rest.last;
                  before = rest.before;
                  copies = one_copied o k handed copied_ rest.copies;
                  ended = rest.ended;
                  entries = omega (arith, rest.entries, same, small, room);
                  few = omega (arith, rest.few, limit);
                  encoded = rest.encoded;
                  decoded = rest.decoded;
                }
          ])
        h

  -- A report of `validate` is made by the reader of the archive: it has copied as many entries as the
  -- report counts, `max_entries` at most, and has then come to the end that `verify_end` verified on
  -- its archive; the report's byte counts are those behind that end. The limit is below the largest
  -- 64-bit number.
  pub validate-IsReport :
      (calls : ℕ) (archive : A) (limits : SecurityLimits) (sh : Shared) {report : ValidationReport}
      → limits.max_entries < u64_mod - 1
      → validate parser patience rounds copy calls archive limits sh ≡ some (ok report)
      → IsReport (new_reader archive limits) sh 0 report
  unfolding validate new_reader
  validate-IsReport calls archive limits sh {report} room h =
      validate_loop-IsReport calls (new_reader archive limits) sh 0 report refl refl (omega arith)
        room h

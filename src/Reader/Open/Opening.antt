-- ===== src/Reader/Open/Opening.antt =====
-- What `Reader::open` of src/reader.rs leaves of the source, of the counts and of the reader.
use etar.Prelude.{
  ℕ, ◌+◌, ◌%◌, ◌≤◌, ◌≡◌, refl, ap, sym, ◌∙◌, false, [], ◌++◌, Bytes, length, Option, none, some,
  arith, length-append, append_assoc, if◌then◌else◌, Result, ok, err, append-nil,
}
use etar.Errors.{IoError}
use etar.Settings.{peek_len}
use etar.Limits.{SecurityLimits}
use etar.Io.{ReadBuf, Shared, Poller, u64_mod, empty_buf}
use etar.Io.Await.{Awaited}
use etar.Io.Contract.{filled-difference}
use etar.Io.Log.{IsLogged}
use etar.Open.Meter.{Meter, poll_meter, charge_encoded, poll_meter-Hands}
use etar.Compress.{starts_with_magic, peek, wrap, select, decoded}
use etar.Compress.Keeps.{peek-Holds}
use etar.Compress.Peek.{peek_lem}
use etar.Reader.{Reader, new_reader}
use etar.Reader.Open.{Parts, no_counts, layers, on_entries, on_decoded, open_reader}

-- A source that knows nothing of the reader's counts.
abbrev pub KeepsShared : {S : Type 0} → Poller S → Type 0
KeepsShared {S} poll = (s : S) (sh : Shared) (b : ReadBuf) → (poll s sh b).shared ≡ sh

charge_counted :
    (n k : ℕ)
    → charge_encoded n (record { encoded = k % u64_mod; decoded = 0; body_failed = false })
      ≡ record { encoded = (k + n) % u64_mod; decoded = 0; body_failed = false }
unfolding charge_encoded
charge_counted n k = ground arith

module _ {S : Type 0} {poll : Poller S} {log : S → Bytes} (logged : IsLogged poll log) where
  poll_meter-IsLogged : IsLogged (poll_meter poll) (λ m. log m.inner)
  unfolding poll_meter
  poll_meter-IsLogged m sh b =
      let l = logged m.inner sh b in
      record { bytes = l.bytes; hands = poll_meter-Hands poll m sh b l.hands; logged = l.logged }

  -- The encoded bytes that have been counted are those that have been read since `start`.
  abbrev Counted : Bytes → Meter S → Shared → Type 0
  Counted start m sh =
      (behind : Bytes) × (log m.inner ≡ start ++ behind)
      × (sh ≡ record { encoded = length behind % u64_mod; decoded = 0; body_failed = false })

  poll_meter-Counted :
      KeepsShared poll
      → (start : Bytes) (m : Meter S) (sh : Shared) (n : ℕ) → Counted start m sh
      → (let t = poll_meter poll m sh (empty_buf n) in Counted start t.state t.shared)
  unfolding poll_meter
  poll_meter-Counted keeps start m sh n (behind, more, counts) =
      let t = poll m.inner sh (empty_buf n) in
      let l = logged m.inner sh (empty_buf n) in
      let read = filled-difference l.hands in
      (
        behind ++ l.bytes,
        l.logged ∙ (ap (λ x. x ++ l.bytes) more ∙ append_assoc start behind l.bytes),
        ap (λ x. charge_encoded x t.shared) read
            ∙ (ap (charge_encoded (length l.bytes)) (keeps m.inner sh (empty_buf n) ∙ counts)
                ∙ (charge_counted (length l.bytes) (length behind)
                    ∙ ap (λ x. record { encoded = x % u64_mod; decoded = 0; body_failed = false })
                        (sym (length-append behind l.bytes)))),
      )

  -- A reader that has just been opened.
  pub record IsOpened {D A : Type 0} (parts : Parts S D A) (limits : SecurityLimits) (source : S)
      (sh : Shared) (r : Reader A) : Type 0 where
    pub magic : Bytes
    pub rest : Meter S
    pub taken : log rest.inner ≡ log source ++ magic
    pub short : length magic ≤ peek_len
    pub archive : A
    pub layered :
        archive
        ≡ parts.archive (
            layers limits
              (if starts_with_magic magic then parts.zstd magic rest else parts.plain magic rest))
    pub entered : parts.entries archive ≡ ok tt
    pub reader : r ≡ new_reader archive limits
    pub counts : sh ≡ record { encoded = length magic; decoded = 0; body_failed = false }

  module _ {D A : Type 0} (parts : Parts S D A) (limits : SecurityLimits) (patience : ℕ) where
    on_entries-ok :
        (archive : A) (sh : Shared) (x : Result (Unit {0}) IoError) {r : Reader A}
        → (on_entries parts limits archive sh x).result ≡ some (ok r)
        → (x ≡ ok tt)
          × (r ≡ new_reader archive limits)
          × ((on_entries parts limits archive sh x).shared ≡ sh)
    unfolding on_entries
    on_entries-ok archive sh (err e) h = cc
    on_entries-ok archive sh (ok u) h = (refl, cc, refl)

    on_decoded-ok :
        (sh : Shared) (x : Option (Result D IoError)) {r : Reader A}
        → (on_decoded parts limits sh x).result ≡ some (ok r)
        → (d : D) × (x ≡ some (ok d))
          × (parts.entries (parts.archive (layers limits d)) ≡ ok tt)
          × (r ≡ new_reader (parts.archive (layers limits d)) limits)
          × ((on_decoded parts limits sh x).shared ≡ sh)
    unfolding on_decoded
    on_decoded-ok sh none h = cc
    on_decoded-ok sh (some (err e)) h = cc
    on_decoded-ok sh (some (ok d)) h =
        let archive = parts.archive (layers limits d) in
        let (x, y, z) = on_entries-ok archive sh (parts.entries archive) h in (d, refl, x, y, z)

    select-ok :
        (a : Awaited (Meter S) (Result Bytes IoError)) (o : Option (Result Bytes IoError)) {d : D}
        → select (poll_meter poll) patience parts.plain parts.zstd a o ≡ some (ok d)
        → (magic : Bytes) × (o ≡ some (ok magic))
          × (d ≡ (
              if starts_with_magic magic
              then parts.zstd magic a.state
              else parts.plain magic a.state))
    unfolding select wrap
    select-ok a none h = cc
    select-ok a (some (err e)) h = cc
    select-ok a (some (ok magic)) h = (magic, refl, cc)

    -- A reader that `open` returns stands on the layers over the decoder that the first bytes select:
    -- the decoder gets those bytes, at most four and exactly what has been read, and the rest of the
    -- source; the encoded count is their number, nothing is decoded yet and no body has failed; and the
    -- reader is new, under the limits that were given. The source keeps the contract of `AsyncRead`,
    -- knows its history and nothing of the counts.
    pub open_reader-IsOpened :
        KeepsShared poll
        → (source : S) {r : Reader A}
        → (open_reader parts limits poll patience source).result ≡ some (ok r)
        → IsOpened parts limits source (open_reader parts limits poll patience source).shared r
    unfolding open_reader decoded
    open_reader-IsOpened keeps source h =
        let start : Meter S = record { inner = source } in
        let a = peek (poll_meter poll) patience peek_len [] start no_counts in
        let (d, x, entered, reader, same) = on_decoded-ok a.shared _ h in
        let (magic, y, chosen) = select-ok a a.result x in
        let p = peek_lem poll_meter-IsLogged patience start no_counts magic y in
        let (behind, more, counts) =
          peek-Holds (poll_meter poll) (Counted (log source))
            (poll_meter-Counted keeps (log source)) patience peek_len [] start no_counts
            ([], sym (append-nil (log source)), refl) in
        let taken = p.logged ∙ ap (λ m. log source ++ m) (sym p.magic_eq) in
        let number : length behind % u64_mod ≡ length magic = omega (
          arith,
          length-append (log source) behind,
          length-append (log source) magic,
          ap length (sym more ∙ taken),
          p.short,
        ) in
        record {
          magic = magic;
          rest = a.state;
          taken = taken;
          short = p.short;
          archive = parts.archive (layers limits d);
          layered = ap (λ x. parts.archive (layers limits x)) chosen;
          entered = entered;
          reader = reader;
          counts =
              same
              ∙ (counts
                  ∙ ap (λ x. record { encoded = x; decoded = 0; body_failed = false }) number);
        }

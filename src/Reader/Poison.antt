-- ===== src/Reader/Poison.antt =====
-- A body of an entry that src/reader.rs lends out, and that fails.
use etar.Prelude.{Option, ℕ, ◌≡◌, refl, true, List, [], ◌∷◌, some, err, ok, arith}
use etar.Errors.{aborted}
use etar.Io.{Poll, pending, ready, ReadBuf, Shared, Poller, empty_buf, drain}
use etar.Io.Contract.{is_error}
use etar.Open.Bounded.{poll_bounded}
use etar.Open.OpenEntry.{OpenEntry, poll_open}
use etar.Reader.{TarParser, Reader, called, next_entry}
use etar.Reader.Body.{poll_entry, mark_failed}

-- A body's polls do not take the flag back.
abbrev pub KeepsFailed : {S : Type 0} → Poller S → Type 0
KeepsFailed {S} poll =
    (s : S) (sh : Shared) (b : ReadBuf)
    → sh.body_failed ≡ true
    → (poll s sh b).shared.body_failed ≡ true

mark_failed-keeps :
    (p : Poll) (sh : Shared) → sh.body_failed ≡ true → (mark_failed p sh).body_failed ≡ true
unfolding mark_failed
mark_failed-keeps pending sh h = h
mark_failed-keeps (ready (ok u)) sh h = h
mark_failed-keeps (ready (err e)) sh h = refl

mark_failed-marks :
    (p : Poll) (sh : Shared) → is_error p ≡ true → (mark_failed p sh).body_failed ≡ true
unfolding mark_failed
mark_failed-marks pending sh h = cc
mark_failed-marks (ready (ok u)) sh h = cc
mark_failed-marks (ready (err e)) sh h = refl

poll_bounded-KeepsFailed :
    {S : Type 0} (poll : Poller S) → KeepsFailed poll → KeepsFailed (poll_bounded poll)
unfolding poll_bounded
poll_bounded-KeepsFailed poll keeps c sh b h = ground (arith, h, keeps c.inner sh b h)

module _ {A B S : Type 0} (parser : TarParser A B S) (keeps : KeepsFailed parser.poll_body)
    (patience rounds : ℕ) where
  pub poll_entry-KeepsFailed : KeepsFailed (poll_entry parser)
  unfolding poll_entry poll_open
  poll_entry-KeepsFailed e sh b h =
      mark_failed-keeps _ _ (poll_bounded-KeepsFailed parser.poll_body keeps e.body sh b h)

  pub poll_entry-Marks :
      (e : OpenEntry (B × Option A)) (sh : Shared) (b : ReadBuf)
      → is_error (poll_entry parser e sh b).poll ≡ true
      → (poll_entry parser e sh b).shared.body_failed ≡ true
  unfolding poll_entry poll_open
  poll_entry-Marks e sh b failed = mark_failed-marks _ _ failed

  drain-KeepsFailed :
      (ns : List ℕ) (e : OpenEntry (B × Option A)) (sh : Shared)
      → sh.body_failed ≡ true
      → (drain (poll_entry parser) e sh ns).after.body_failed ≡ true
  unfolding drain
  drain-KeepsFailed [] e sh h = h
  drain-KeepsFailed (n ∷ ns) e sh h =
      drain-KeepsFailed ns _ _ (poll_entry-KeepsFailed e sh (empty_buf n) h)

  -- A poll of an entry's body that fails, be it the tar parser's error or the entry's own limit, ends
  -- the reader for good: after any more polls of that body, `next_entry` returns `Aborted` and leaves
  -- the reader and the counts as they are. The parser's polls do not take the flag of a failed body
  -- back.
  pub poll_entry-poisons :
      (r : Reader A) (e : OpenEntry (B × Option A)) (sh : Shared) (b : ReadBuf) (ns : List ℕ)
      → is_error (poll_entry parser e sh b).poll ≡ true
      → (let t = poll_entry parser e sh b in
          let later = drain (poll_entry parser) t.state t.shared ns in
          next_entry parser patience rounds r later.after
          ≡ called r later.after (some (err aborted)))
  unfolding next_entry
  poll_entry-poisons r e sh b ns failed =
      let t = poll_entry parser e sh b in
      let later = drain (poll_entry parser) t.state t.shared ns in
      let marked : later.after.body_failed ≡ true =
        drain-KeepsFailed ns t.state t.shared (poll_entry-Marks e sh b failed) in
      simp marked

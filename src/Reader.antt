-- ===== src/Reader.antt =====
-- src/reader.rs: the reader as a state machine over the tar parser. The parser of tokio_tar is the
-- parameter `parser`: its archive is a state `A`, which the reader and the one entry that is lent out
-- share, and an entry's body is a handle `B` into it. `none` stands for a future that was dropped.
pub mod Sequence
pub mod Trailer
pub mod Ended
pub mod Body
pub mod Poison
pub mod Transport
pub mod Session
pub mod Open
pub mod Validate
use etar.Prelude.{
  ℕ, zero, suc, ◌+◌, ◌%◌, Bool, true, false, not, Option, none, some, List, [], ◌∷◌, Bytes, length,
  any, ltb, ◌==◌, if◌then◌else◌, Result, ok, err, is_ok,
}
use etar.Errors.{Error, IoError, aborted, malformed, limit_exceeded}
use etar.Limits.{SecurityLimits}
use etar.Io.{Poll, ready, ReadBuf, Shared, Turn, Poller, fetch_add, saturating_add}
use etar.Io.Await.{Awaited, read}
use etar.Open.Bounded.{Bounded, poll_bounded}
use etar.Open.OpenEntry.{TarEntry, OpenEntry, open_entry, read_error}

-- The archive and the shared counts after an awaited call.
pub record Parsed (A X : Type 0) : Type 0 where
  pub archive : A
  pub shared : Shared
  pub result : Option X

-- `Entries::next`, the polls of an entry's body, `Archive::into_inner`, and the polls of the source
-- that it gives back.
pub record TarParser (A B S : Type 0) : Type 0 where
  pub next : A → Shared → Parsed A (Option (Result (TarEntry B) IoError))
  pub poll_body : Poller (B × Option A)
  pub into_inner : A → Result S IoError
  pub poll_source : Poller S

-- `archive` and `entries` are taken together when the end is verified.
pub record Reader (A : Type 0) : Type 0 where
  pub archive : Option A
  pub entries : Bool
  pub limits : SecurityLimits
  pub seen : ℕ
  pub done : Bool

-- The new reader, around an archive that has just been opened.
unfoldable pub new_reader : {A : Type 0} → A → SecurityLimits → Reader A
new_reader archive limits = record {
  archive = some archive;
  entries = true;
  limits = limits;
  seen = 0;
  done = false;
}

-- A reader after a call.
pub record Called (A X : Type 0) : Type 0 where
  pub reader : Reader A
  pub shared : Shared
  pub result : Option (Result X Error)

abbrev pub called : {A X : Type 0} → Reader A → Shared → Option (Result X Error) → Called A X
called r sh x = record { reader = r; shared = sh; result = x }

-- The two counts of a reader, which it shares with its layers.
abbrev pub encoded_bytes : Shared → ℕ
encoded_bytes sh = sh.encoded

abbrev pub decoded_bytes : Shared → ℕ
decoded_bytes sh = sh.decoded

-- `AbortOnDrop`, dropped while it is armed.
abbrev pub abort : Shared → Shared
abort sh = record sh { body_failed = true }

-- One block of the trailer, on what the read gave: the trailing count goes on, or the end is decided.
pub data BlockStep : Type 0 where
  trail : ℕ → BlockStep
  ended : Option (Result (Unit {0}) Error) → BlockStep

unfoldable pub block_step : ℕ → ℕ → Shared → Option (Result Bytes IoError) → BlockStep
block_step max trailing sh none = ended none
block_step max trailing sh (some (err e)) = ended (some (err (read_error e sh max)))
block_step max trailing sh (some (ok block)) =
    if length block == 0
    then ended (some (if ltb trailing 512 then err malformed else ok tt))
    else if any (λ byte. not (byte == 0)) block
    then ended (some (err malformed))
    else trail (saturating_add trailing (length block))

-- The loop of `verify_end`; the caller drops it after `rounds` reads, each of `patience` polls.
pub record Verified : Type 0 where
  pub shared : Shared
  pub result : Option (Result (Unit {0}) Error)

module _ {S : Type 0} (poll : Poller S) (patience max : ℕ) where
  unfoldable pub verify_blocks : ℕ → S → Shared → ℕ → Verified
  verify_blocks zero s sh trailing = record { shared = sh; result = none }
  verify_blocks (suc rounds) s sh trailing =
      let a = read poll patience s sh 8192 in
      elim (block_step max trailing a.shared a.result) [
        | ended r ↦ record { shared = a.shared; result = r }
        | trail n ↦ verify_blocks rounds a.state a.shared n
      ]

module _ {A B S : Type 0} (parser : TarParser A B S) (patience rounds : ℕ) where
  -- `verify_end` on the archive that it takes.
  unfoldable pub verify_taken : ℕ → Shared → Option A → Verified
  verify_taken max sh none = record { shared = sh; result = some (err malformed) }
  verify_taken max sh (some a) = elim (parser.into_inner a) [
    | err e ↦ record { shared = sh; result = some (err malformed) }
    | ok s ↦ verify_blocks parser.poll_source patience max rounds s sh 0
  ]

  -- The end of `next_entry` on the parser's `None`.
  unfoldable pub conclude_end :
      Reader A → Shared → Option (Result (Unit {0}) Error) → Called A (Option (OpenEntry B))
  conclude_end r sh none = called r (abort sh) none
  conclude_end r sh (some (err e)) = called r (abort sh) (some (err e))
  conclude_end r sh (some (ok u)) = called (record r { done = true }) sh (some (ok none))

  -- `accept`: the count, then the entry.
  unfoldable pub accept : Reader A → TarEntry B → Reader A × Result (OpenEntry B) Error
  accept r entry =
      let seen = fetch_add r.seen 1 in
      let r' = record r { seen = seen } in
      if ltb r.limits.max_entries seen
      then (r', err (limit_exceeded "max_entries"))
      else (r', open_entry entry r.limits)

  unfoldable pub conclude_accept :
      Reader A × Result (OpenEntry B) Error → Shared → Called A (Option (OpenEntry B))
  conclude_accept (r, ok o) sh = called r sh (some (ok (some o)))
  conclude_accept (r, err e) sh = called r (abort sh) (some (err e))

  -- The match of `next_entry` on what the parser gave.
  unfoldable pub on_next :
      Reader A
      → Shared
      → Option (Option (Result (TarEntry B) IoError))
      → Called A (Option (OpenEntry B))
  on_next r sh none = called r (abort sh) none
  on_next r sh (some none) =
      let v = verify_taken r.limits.max_total_bytes sh r.archive in
      conclude_end (record r { archive = none; entries = false }) v.shared v.result
  on_next r sh (some (some (err e))) =
      called r (abort sh) (some (err (read_error e sh r.limits.max_total_bytes)))
  on_next r sh (some (some (ok entry))) = conclude_accept (accept r entry) sh

  unfoldable pub next_from : Reader A → Shared → Option A → Called A (Option (OpenEntry B))
  next_from r sh none = called r (abort sh) (some (err malformed))
  next_from r sh (some a) =
      let p = parser.next a sh in on_next (record r { archive = some p.archive }) p.shared p.result

  unfoldable pub next_entry : Reader A → Shared → Called A (Option (OpenEntry B))
  next_entry r sh =
      if sh.body_failed
      then called r sh (some (err aborted))
      else if r.done
      then called r sh (some (ok none))
      else if r.entries
      then next_from r sh r.archive
      else called r (abort sh) (some (err malformed))

-- ===== src/Io.antt =====
-- Asynchronous reads: `tokio::io::AsyncRead`, its `ReadBuf`, and the atomics that the layers of a
-- reader share. A layer is a function from its state, the shared atomics and the caller's buffer to
-- all of these afterwards and what the poll returned.
pub mod Contract
pub mod Log
pub mod Await
pub mod Reads
use etar.Prelude.{
  ℕ, ◌+◌, ◌-◌, ◌%◌, ◌^◌, Bool, List, [], ◌∷◌, ◌++◌, Bytes, length, Result, ok, err, take, ltb,
  if◌then◌else◌, Option, none, some,
}
use etar.Errors.{IoError}

-- `Poll<io::Result<()>>`.
pub data Poll : Type 0 where
  pending : Poll
  ready : Result (Unit {0}) IoError → Poll

-- The filled part of a caller's buffer, and its size.
pub record ReadBuf : Type 0 where
  pub filled : Bytes
  pub capacity : ℕ

abbrev pub remaining : ReadBuf → ℕ
remaining b = b.capacity - length b.filled

abbrev pub empty_buf : ℕ → ReadBuf
empty_buf n = record { filled = []; capacity = n }

-- `put_slice`.
abbrev pub put_slice : ReadBuf → Bytes → ReadBuf
put_slice b bs = record b { filled = b.filled ++ bs }

-- `set_filled` with a smaller count.
abbrev pub set_filled : ReadBuf → ℕ → ReadBuf
set_filled b n = record b { filled = take n b.filled }

-- `Arc<AtomicU64>` for the encoded and the decoded bytes, `Arc<AtomicBool>` for a failed body.
pub record Shared : Type 0 where
  pub encoded : ℕ
  pub decoded : ℕ
  pub body_failed : Bool

abbrev pub u64_mod : ℕ
u64_mod = 2 ^ 64

-- `fetch_add` wraps around.
abbrev pub fetch_add : ℕ → ℕ → ℕ
fetch_add count n = (count + n) % u64_mod

-- `saturating_add` stops at the largest `u64`.
abbrev pub saturating_add : ℕ → ℕ → ℕ
saturating_add a b = if ltb (a + b) u64_mod then a + b else u64_mod - 1

pub record Turn (S : Type 0) : Type 0 where
  pub state : S
  pub shared : Shared
  pub buf : ReadBuf
  pub poll : Poll

abbrev pub Poller : Type 0 → Type 0
Poller S = S → Shared → ReadBuf → Turn S

-- A caller that polls once with an empty buffer of each size, and what it gets in all.
pub record Drained (S : Type 0) : Type 0 where
  pub bytes : Bytes
  pub last : S
  pub after : Shared

unfoldable pub drain : {S : Type 0} → Poller S → S → Shared → List ℕ → Drained S
drain poll s sh [] = record { bytes = []; last = s; after = sh }
drain poll s sh (n ∷ ns) =
    let t = poll s sh (empty_buf n) in
    let rest = drain poll t.state t.shared ns in record rest { bytes = t.buf.filled ++ rest.bytes }

-- The error that a poll returned.
abbrev pub poll_error : Poll → Option IoError
poll_error pending = none
poll_error (ready (ok u)) = none
poll_error (ready (err e)) = some e

-- A caller that polls once with an empty buffer of each size, and goes no further than an error.
pub record Stopped (S : Type 0) : Type 0 where
  pub bytes : Bytes
  pub state : S
  pub error : Option IoError

abbrev pub stop_or : {S : Type 0} → Turn S → Stopped S → Option IoError → Stopped S
stop_or t rest none = record rest { bytes = t.buf.filled ++ rest.bytes }
stop_or t rest (some e) = record { bytes = t.buf.filled; state = t.state; error = some e }

unfoldable pub until_error : {S : Type 0} → Poller S → S → Shared → List ℕ → Stopped S
until_error poll s sh [] = record { bytes = []; state = s; error = none }
until_error poll s sh (n ∷ ns) =
    let t = poll s sh (empty_buf n) in
    let rest = until_error poll t.state t.shared ns in stop_or t rest (poll_error t.poll)

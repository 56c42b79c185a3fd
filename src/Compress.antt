-- ===== src/Compress.antt =====
-- src/compress.rs: the peek at the magic, and the choice of the decoder. `BufReader` over the peeked
-- bytes and the rest of the source, and `ZstdDecoder` over that, are the parameters `plain` and `zstd`.
pub mod Peek
pub mod Keeps
use etar.Prelude.{
  ℕ, zero, suc, ◌+◌, ◌-◌, Bool, true, false, Option, none, some, [], ◌∷◌, ◌++◌, Bytes, length, ltb,
  ◌==◌, if◌then◌else◌, Result, ok, err,
}
use etar.Errors.{IoError}
use etar.Settings.{peek_len, zstd_magic}
use etar.Io.{Poll, Shared, Poller}
use etar.Io.Await.{Awaited, read}
use etar.Guard.Pax.{strip_prefix}

-- `magic.starts_with(&ZSTD_MAGIC)`.
unfoldable pub starts_with_magic : Bytes → Bool
unfolding strip_prefix
starts_with_magic magic = elim (strip_prefix zstd_magic magic) [ none ↦ false | some rest ↦ true ]

module _ {S : Type 0} (poll : Poller S) (patience : ℕ) where
  -- A round of the loop, on what the read gave; `more` is the rest of the loop.
  unfoldable pub peek_read :
      (Bytes → S → Shared → Awaited S (Result Bytes IoError))
      → Bytes
      → Awaited S (Result Bytes IoError)
      → Option (Result Bytes IoError)
      → Awaited S (Result Bytes IoError)
  peek_read more magic a none = a
  peek_read more magic a (some (err e)) = a
  peek_read more magic a (some (ok bs)) =
      if length bs == 0
      then record { state = a.state; shared = a.shared; result = some (ok magic) }
      else more (magic ++ bs) a.state a.shared

  -- `while seen < PEEK_LEN`, with fuel: every round but the last reads a byte at least. `magic` is
  -- what has been seen.
  unfoldable pub peek : ℕ → Bytes → S → Shared → Awaited S (Result Bytes IoError)
  peek zero magic s sh = record { state = s; shared = sh; result = some (ok magic) }
  peek (suc fuel) magic s sh =
      let a = read poll patience s sh (peek_len - length magic) in
      let round = peek_read (peek fuel) magic a a.result in
      if ltb (length magic) peek_len
      then round
      else record { state = s; shared = sh; result = some (ok magic) }

  -- `decoded` and `wrap`: the decoder that the magic selects, over the peeked bytes and the rest.
  unfoldable pub wrap : {D : Type 0} → (Bytes → S → D) → (Bytes → S → D) → Bytes → S → D
  wrap plain zstd magic rest = if starts_with_magic magic then zstd magic rest else plain magic rest

  unfoldable pub select :
      {D : Type 0}
      → (Bytes → S → D)
      → (Bytes → S → D)
      → Awaited S (Result Bytes IoError)
      → Option (Result Bytes IoError)
      → Option (Result D IoError)
  select plain zstd a none = none
  select plain zstd a (some (err e)) = some (err e)
  select plain zstd a (some (ok magic)) = some (ok (wrap plain zstd magic a.state))

  unfoldable pub decoded :
      {D : Type 0} → (Bytes → S → D) → (Bytes → S → D) → S → Shared → Awaited S (Result D IoError)
  decoded plain zstd src sh =
      let a = peek peek_len [] src sh in
      record { state = a.state; shared = a.shared; result = select plain zstd a a.result }

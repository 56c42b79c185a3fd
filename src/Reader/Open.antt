-- ===== src/Reader/Open.antt =====
-- `Reader::open` of src/reader.rs: the layers between the source and the tar parser. `BufReader` and
-- `ZstdDecoder`, as constructors of a decoder, and `Archive::new` and `Archive::entries` of tokio_tar
-- are the parameter `parts`; `none` stands for a future that was dropped.
pub mod Layers
pub mod Opening
pub mod Passing
use etar.Prelude.{ℕ, false, Option, none, some, Bytes, Result, ok, err}
use etar.Errors.{Error, io, IoError, malformed}
use etar.Limits.{SecurityLimits}
use etar.Io.{Shared, Poller}
use etar.Open.Meter.{Meter, poll_meter}
use etar.Open.Cap.{Cap, new_cap}
use etar.Guard.{HeaderGuard, new_guard}
use etar.Compress.{decoded}
use etar.Reader.{Reader, new_reader}

pub record Parts (S D A : Type 0) : Type 0 where
  pub plain : Bytes → Meter S → D
  pub zstd : Bytes → Meter S → D
  pub archive : HeaderGuard (Cap D) → A
  pub entries : A → Result (Unit {0}) IoError

-- The counts of a new reader.
abbrev pub no_counts : Shared
no_counts = record { encoded = 0; decoded = 0; body_failed = false }

unfoldable pub layers : {D : Type 0} → SecurityLimits → D → HeaderGuard (Cap D)
layers limits decoder =
    new_guard (new_cap decoder limits.max_total_bytes limits.max_compression_ratio)
      limits.max_metadata_bytes

-- A reader after `open`, with the counts that it shares with its layers.
pub record Opened (A : Type 0) : Type 0 where
  pub shared : Shared
  pub result : Option (Result (Reader A) Error)

abbrev pub opened : {A : Type 0} → Shared → Option (Result (Reader A) Error) → Opened A
opened sh r = record { shared = sh; result = r }

module _ {S D A : Type 0} (parts : Parts S D A) (limits : SecurityLimits) where
  -- The end of `open`, on what `archive.entries()` gave.
  unfoldable pub on_entries : A → Shared → Result (Unit {0}) IoError → Opened A
  on_entries archive sh (err e) = opened sh (some (err malformed))
  on_entries archive sh (ok u) = opened sh (some (ok (new_reader archive limits)))

  -- `open` on what `decoded` gave.
  unfoldable pub on_decoded : Shared → Option (Result D IoError) → Opened A
  on_decoded sh none = opened sh none
  on_decoded sh (some (err e)) = opened sh (some (err (io e)))
  on_decoded sh (some (ok decoder)) =
      let archive = parts.archive (layers limits decoder) in
      on_entries archive sh (parts.entries archive)

  unfoldable pub open_reader : Poller S → ℕ → S → Opened A
  open_reader poll patience source =
      let a =
        decoded (poll_meter poll) patience parts.plain parts.zstd (record { inner = source })
          no_counts in
      on_decoded a.shared a.result

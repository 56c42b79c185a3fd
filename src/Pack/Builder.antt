-- ===== src/Pack/Builder.antt =====
-- `tokio_tar::Builder` and `Header`, as far as src/pack.rs and src/writer.rs use them: a header is the
-- fields that have been set, and the builder's operations are an interface.
use etar.Prelude.{ℕ, Option, Bytes, Result, ok}
use etar.Errors.{IoError}
use etar.Io.{ready, Shared, Poller}

-- `tokio_tar::EntryType`.
pub data EntryType : Type 0 where
  regular link symlink char block directory fifo continuous : EntryType
  gnu_long_name gnu_long_link gnu_sparse x_global_header x_header : EntryType
  other : ℕ → EntryType

pub record Header : Type 0 where
  pub mode : ℕ
  pub uid : ℕ
  pub gid : ℕ
  pub mtime : ℕ
  pub entry_type : EntryType
  pub size : ℕ
  pub link_name : Option Bytes

-- A builder after an awaited operation that reads a body; `none` if the future was dropped.
pub record Appended (W S : Type 0) : Type 0 where
  pub builder : W
  pub body : S
  pub shared : Shared
  pub result : Option (Result (Unit {0}) IoError)

pub record TarBuilder (W : Type 0) : Type 1 where
  pub set_link_name : Header → Bytes → Result Header IoError
  pub append_data : (S : Type 0) → Poller S → W → Header → Bytes → S → Shared → Appended W S

-- `tokio::io::empty()`.
unfoldable pub poll_empty : Poller (Unit {0})
poll_empty s sh buf = record { state = s; shared = sh; buf = buf; poll = ready (ok tt) }

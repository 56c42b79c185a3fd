-- ===== src/Pack.antt =====
-- src/pack.rs: one entry as tar records. `tokio_tar::Builder` is the parameter `tar`, and the body
-- is a reader of the caller's. `none` stands for a future that was dropped before it was ready.
pub mod Body
pub mod Counts
pub mod Builder
pub mod Append
pub mod Recorded
use etar.Prelude.{
  ℕ, Bool, true, false, not, ◌&&◌, ◌||◌, Option, none, some, List, [], ◌∷◌, Bytes, length, ◌==◌,
  if◌then◌else◌, Result, ok, err,
}
use etar.Errors.{Error, io, IoError, missing_body, non_file_payload, body_length_mismatch}
use etar.Entry.{Kind, file, dir, symlink, hardlink, is_file, Meta, SafePath}
use etar.Io.{Poll, Shared, Poller}
use etar.Io.Await.{Awaited, read}
use etar.Pack.Builder.{EntryType, regular, directory, Header, Appended, TarBuilder, poll_empty}
use etar.Pack.Body.{Exact, new_exact, poll_exact}

pub record PackEntry (B : Type 0) : Type 0 where
  pub path : SafePath
  pub meta : Meta
  pub size : ℕ
  pub body : Option B

-- `Header::new_gnu` is an empty regular header.
unfoldable pub base_header : Meta → Header
base_header meta = record {
  mode = meta.mode;
  uid = meta.uid;
  gid = meta.gid;
  mtime = meta.mtime_unix_secs;
  entry_type = regular;
  size = 0;
  link_name = none;
}

-- A builder after `append`.
pub record Packed (W : Type 0) : Type 0 where
  pub builder : W
  pub shared : Shared
  pub result : Option (Result (Unit {0}) Error)

abbrev pub packed : {W : Type 0} → W → Shared → Option (Result (Unit {0}) Error) → Packed W
packed w sh r = record { builder = w; shared = sh; result = r }

-- The probe for a surplus byte, on what the read of one byte gave.
unfoldable pub probed : Option (Result Bytes IoError) → Option (Result (Unit {0}) Error)
probed none = none
probed (some (err e)) = some (err (io e))
probed (some (ok bs)) = if length bs == 0 then some (ok tt) else some (err body_length_mismatch)

module _ {W B : Type 0} (tar : TarBuilder W) (poll : Poller B) (patience : ℕ) where
  -- The end of `append_file`, on what `append_data` gave.
  unfoldable pub file_appended :
      Appended W (Exact B) → Option (Result (Unit {0}) IoError) → Packed W
  unfolding probed
  file_appended a none = packed a.builder a.shared none
  file_appended a (some r) =
      if a.body.mismatch
      then packed a.builder a.shared (some (err body_length_mismatch))
      else elim r [
        | err e ↦ packed a.builder a.shared (some (err (io e)))
        | ok u ↦
            let extra = read poll patience a.body.inner a.shared 1 in
            packed a.builder extra.shared (probed extra.result)
      ]

  unfoldable pub append_file : W → Header → Bytes → ℕ → Option B → Shared → Packed W
  append_file w header path size none sh = packed w sh (some (err missing_body))
  append_file w header path size (some body) sh =
      let a =
        tar.append_data (Exact B) (poll_exact poll) w
          (record header { entry_type = regular; size = size }) path (new_exact body size) sh in
      file_appended a a.result

  -- The end of `append_meta`, on the header with the link's name.
  unfoldable pub meta_appended : W → Bytes → Shared → Result Header IoError → Packed W
  meta_appended w path sh (err e) = packed w sh (some (err (io e)))
  meta_appended w path sh (ok header) =
      let a = tar.append_data (Unit {0}) poll_empty w header path tt sh in
      packed a.builder a.shared (elim a.result [
        | none ↦ none
        | some r ↦ some (elim r [ ok u ↦ ok tt | err e ↦ err (io e) ])
      ])

  unfoldable pub append_meta : W → Header → Bytes → EntryType → Option Bytes → Shared → Packed W
  append_meta w header path kind none sh =
      meta_appended w path sh (ok (record header { entry_type = kind; size = 0 }))
  append_meta w header path kind (some target) sh =
      meta_appended w path sh
        (tar.set_link_name (record header { entry_type = kind; size = 0 }) target)

  unfoldable pub append_kind : Kind → W → PackEntry B → Shared → Packed W
  append_kind file w e sh = append_file w (base_header e.meta) e.path.path e.size e.body sh
  append_kind dir w e sh =
      append_meta w (base_header e.meta) e.path.path EntryType.directory none sh
  append_kind (symlink target) w e sh =
      append_meta w (base_header e.meta) e.path.path EntryType.symlink (some target) sh
  append_kind (hardlink target) w e sh =
      append_meta w (base_header e.meta) e.path.path EntryType.link (some target) sh

  abbrev pub has_body : Option B → Bool
  has_body none = false
  has_body (some b) = true

  unfoldable pub append : W → PackEntry B → Shared → Packed W
  append w e sh =
      if not (is_file e.meta.kind) && (not (e.size == 0) || has_body e.body)
      then packed w sh (some (err non_file_payload))
      else append_kind e.meta.kind w e sh

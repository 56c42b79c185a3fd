-- ===== src/Open/OpenEntry.antt =====
-- `open_entry` of src/open.rs and what it calls, and `read_error`. tokio_tar's `Entry` is what its
-- accessors return, with the state `B` of its body.
pub mod Accepted
use etar.Prelude.{
  ℕ, ◌^◌, ◌<◌, Bool, true, false, not, ◌&&◌, Option, none, some, Bytes, length, ltb, ◌==◌,
  if◌then◌else◌, Result, ok, err, ◌>>=◌, ◌>>◌, fail_if, ok_or, map_err,
}
use etar.Errors.{
  Error, io, IoError, custom, plain, malformed, limit_exceeded, disallowed_entry_type,
  non_file_payload,
}
use etar.Limits.{SecurityLimits}
use etar.Entry.{Kind, file, dir, symlink, hardlink, is_file, Meta, SafePath, new_safe_path}
use etar.Io.{Shared, Poller}
use etar.Open.Bounded.{Bounded, new_bounded, poll_bounded}
use etar.Pack.Builder.{EntryType, regular, continuous, directory}

pub record TarEntry (B : Type 0) : Type 0 where
  pub path : Result Bytes IoError
  pub entry_type : EntryType
  pub size : Result ℕ IoError
  pub link_name : Result (Option Bytes) IoError
  pub mode : Result ℕ IoError
  pub uid : Result ℕ IoError
  pub gid : Result ℕ IoError
  pub mtime : Result ℕ IoError
  pub body : B

pub record OpenEntry (B : Type 0) : Type 0 where
  pub path : SafePath
  pub meta : Meta
  pub size_bytes : ℕ
  pub body : Bounded B

-- `poll_read`: the body's.
unfoldable pub poll_open : {B : Type 0} → Poller B → Poller (OpenEntry B)
poll_open poll o sh buf =
    let t = poll_bounded poll o.body sh buf in
    record { state = record o { body = t.state }; shared = t.shared; buf = t.buf; poll = t.poll }

-- `.map_err(|_| Error::Malformed)`.
abbrev pub or_malformed : {A : Type 0} → Result A IoError → Result A Error
or_malformed = map_err (λ _. malformed)

-- `u32::try_from`.
unfoldable pub small_id : ℕ → Result ℕ Error
small_id id = if ltb id (2 ^ 32) then ok id else err malformed

module _ {B : Type 0} where
  unfoldable pub validate_path : TarEntry B → SecurityLimits → Result SafePath Error
  validate_path entry limits = do
    raw ← or_malformed entry.path
    fail_if (ltb limits.max_path_len (length raw)) (limit_exceeded "max_path_len")
    new_safe_path raw

  unfoldable pub link : TarEntry B → Result Bytes Error
  link entry = do name ← or_malformed entry.link_name; ok_or malformed name

  -- The match on the entry type; the last two arguments are the limits' flags.
  unfoldable pub classify_type : EntryType → TarEntry B → Bool → Bool → Result Kind Error
  classify_type regular entry sym_ok hard_ok = ok file
  classify_type continuous entry sym_ok hard_ok = ok file
  classify_type directory entry sym_ok hard_ok = ok dir
  classify_type EntryType.symlink entry true hard_ok = do target ← link entry; ok (symlink target)
  classify_type EntryType.link entry sym_ok true = do target ← link entry; ok (hardlink target)
  classify_type _ entry sym_ok hard_ok = err disallowed_entry_type

  unfoldable pub classify : TarEntry B → SecurityLimits → Result Kind Error
  classify entry limits =
      classify_type entry.entry_type entry limits.allow_symlinks limits.allow_hardlinks

  unfoldable pub read_meta : TarEntry B → Kind → Result Meta Error
  read_meta entry kind = do
    mode ← or_malformed entry.mode
    raw_uid ← or_malformed entry.uid
    uid ← small_id raw_uid
    raw_gid ← or_malformed entry.gid
    gid ← small_id raw_gid
    mtime ← or_malformed entry.mtime
    ok (record { mode = mode; uid = uid; gid = gid; mtime_unix_secs = mtime; kind = kind })

  unfoldable pub open_entry : TarEntry B → SecurityLimits → Result (OpenEntry B) Error
  open_entry entry limits = do
    path ← validate_path entry limits
    kind ← classify entry limits
    size_bytes ← or_malformed entry.size
    fail_if (not (is_file kind) && not (size_bytes == 0)) non_file_payload
    fail_if (ltb limits.max_entry_bytes size_bytes) (limit_exceeded "max_entry_bytes")
    meta ← read_meta entry kind
    ok (record {
      path = path;
      meta = meta;
      size_bytes = size_bytes;
      body = new_bounded entry.body limits.max_entry_bytes;
    })

-- What is boxed into an I/O error decides, once the decoded total is within its cap.
unfoldable pub boxed_error : IoError → Error
boxed_error (custom k (limit_exceeded which)) = limit_exceeded which
boxed_error (custom k disallowed_entry_type) = disallowed_entry_type
boxed_error (custom k (io e)) = io (custom k (io e))
boxed_error _ = malformed

unfoldable pub read_error : IoError → Shared → ℕ → Error
read_error error sh max =
    if ltb max sh.decoded then limit_exceeded "max_total_bytes" else boxed_error error

-- ===== src/Writer/Entries.antt =====
-- The errors of an append in src/writer.rs, of entries that `WriteEntry::file` and
-- `WriteEntry::metadata` make.
use etar.Prelude.{
  ℕ, ◌≡◌, refl, sym, Bool, true, false, Option, none, some, Bytes, Result, ok, err, Bool-cases, inl,
  inr, ◌==◌, length,
}
use etar.Errors.{Error, IoError, io, body_length_mismatch}
use etar.Entry.{Kind, file, dir, symlink, hardlink, is_file, Meta, SafePath}
use etar.Io.{Shared, Poller}
use etar.Io.Await.{read}
use etar.Pack.{
  PackEntry, probed, file_appended, append_file, meta_appended, append_meta, append_kind, append,
}
use etar.Pack.Body.{Exact}
use etar.Pack.Builder.{EntryType, Header, Appended, TarBuilder}
use etar.Writer.{
  Writer, Inner, tar_builder, zstd_builder, conclude, file_entry, metadata_entry, append_inner,
  append_entry,
}

-- The errors of the sink, of the body and of the builder.
abbrev pub is_transport : Error → Bool
is_transport (io e) = true
is_transport _ = false

-- These, and a body of another length than was declared.
abbrev pub is_body_failure : Error → Bool
is_body_failure (io e) = true
is_body_failure body_length_mismatch = true
is_body_failure _ = false

-- If the append fails, it is by such an error.
abbrev pub FailsBy : (Error → Bool) → Option (Result (Unit {0}) Error) → Type 0
FailsBy f none = Unit
FailsBy f (some (ok u)) = Unit
FailsBy f (some (err e)) = f e ≡ true

probed-FailsBy : (r : Option (Result Bytes IoError)) → FailsBy is_body_failure (probed r)
unfolding probed
probed-FailsBy none = tt
probed-FailsBy (some (err e)) = refl
probed-FailsBy (some (ok bs)) = elim (Bool-cases (length bs == 0)) [
  | inl e ↦ rw e tt
  | inr e ↦ rw e refl
]

relabelled-FailsBy :
    (r : Option (Result (Unit {0}) IoError))
    → FailsBy is_transport
        (elim r [ none ↦ none | some r ↦ some (elim r [ ok u ↦ ok tt | err e ↦ err (io e) ]) ])
relabelled-FailsBy none = tt
relabelled-FailsBy (some (ok u)) = tt
relabelled-FailsBy (some (err e)) = refl

is_file-file : (k : Kind) → is_file k ≡ true → k ≡ file
is_file-file file h = refl
is_file-file dir h = cc
is_file-file (symlink target) h = cc
is_file-file (hardlink target) h = cc

made_by_file :
    {B : Type 0} (e : PackEntry B) (path : SafePath) (meta : Meta) (size : ℕ) (body : B)
    → file_entry path meta size body ≡ ok e
    → (meta.kind ≡ file) × (record { path = path; meta = meta; size = size; body = some body } ≡ e)
unfolding file_entry
made_by_file e path meta size body made = elim (Bool-cases (is_file meta.kind)) [
  | inl k ↦ (is_file-file meta.kind k, let made' = rw k at made in cc)
  | inr k ↦ let made' = rw k at made in cc
]

made_by_metadata :
    (e : PackEntry (Unit {0})) (path : SafePath) (meta : Meta)
    → metadata_entry path meta ≡ ok e
    → (is_file meta.kind ≡ false) × (record { path = path; meta = meta; size = 0; body = none } ≡ e)
unfolding metadata_entry
made_by_metadata e path meta made = elim (Bool-cases (is_file meta.kind)) [
  | inl k ↦ let made' = rw k at made in cc
  | inr k ↦ (k, let made' = rw k at made in cc)
]

module _ {W B : Type 0} (tar : TarBuilder W) (poll : Poller B) (patience : ℕ) where
  file_appended-FailsBy :
      (a : Appended W (Exact B)) (r : Option (Result (Unit {0}) IoError))
      → FailsBy is_body_failure (file_appended tar poll patience a r).result
  unfolding file_appended
  file_appended-FailsBy a none = tt
  file_appended-FailsBy a (some (err e)) = elim (Bool-cases a.body.mismatch) [
    | inl m ↦ rw m refl
    | inr m ↦ rw m refl
  ]
  file_appended-FailsBy a (some (ok u)) = elim (Bool-cases a.body.mismatch) [
    | inl m ↦ rw m refl
    | inr m ↦ rw m (probed-FailsBy (read poll patience a.body.inner a.shared 1).result)
  ]

  meta_appended-FailsBy :
      (w : W) (path : Bytes) (sh : Shared) (r : Result Header IoError)
      → FailsBy is_transport (meta_appended tar poll patience w path sh r).result
  unfolding meta_appended
  meta_appended-FailsBy w path sh (err e) = refl
  meta_appended-FailsBy w path sh (ok header) = relabelled-FailsBy _

  append_meta-FailsBy :
      (w : W) (header : Header) (path : Bytes) (kind : EntryType) (target : Option Bytes)
      (sh : Shared)
      → FailsBy is_transport (append_meta tar poll patience w header path kind target sh).result
  unfolding append_meta
  append_meta-FailsBy w header path kind none sh = meta_appended-FailsBy w path sh _
  append_meta-FailsBy w header path kind (some target) sh = meta_appended-FailsBy w path sh _

  append_file-FailsBy :
      (w : W) (header : Header) (path : Bytes) (size : ℕ) (body : B) (sh : Shared)
      → FailsBy is_body_failure
          (append_file tar poll patience w header path size (some body) sh).result
  unfolding append_file
  append_file-FailsBy w header path size body sh = file_appended-FailsBy _ _

  append_kind-FailsBy :
      (k : Kind) (w : W) (e : PackEntry B) (sh : Shared)
      → is_file k ≡ false
      → FailsBy is_transport (append_kind tar poll patience k w e sh).result
  unfolding append_kind
  append_kind-FailsBy file w e sh h = cc
  append_kind-FailsBy dir w e sh h = append_meta-FailsBy w _ _ _ _ sh
  append_kind-FailsBy (symlink target) w e sh h = append_meta-FailsBy w _ _ _ _ sh
  append_kind-FailsBy (hardlink target) w e sh h = append_meta-FailsBy w _ _ _ _ sh

  -- What `WriteEntry::file` makes, and what `WriteEntry::metadata` makes.
  append_made_file :
      (w : W) (e : PackEntry B) (path : SafePath) (meta : Meta) (size : ℕ) (body : B) (sh : Shared)
      → file_entry path meta size body ≡ ok e
      → FailsBy is_body_failure (append tar poll patience w e sh).result
  unfolding append append_kind
  append_made_file w e path meta size body sh made =
      let (kind, same) = made_by_file e path meta size body made in
      rw (sym same, kind) (append_file-FailsBy w _ _ size body sh)

append_made_metadata :
    {W : Type 0} (tar : TarBuilder W) (poll : Poller (Unit {0})) (patience : ℕ) (w : W)
    (e : PackEntry (Unit {0})) (path : SafePath) (meta : Meta) (sh : Shared)
    → metadata_entry path meta ≡ ok e
    → FailsBy is_transport (append tar poll patience w e sh).result
unfolding append
append_made_metadata tar poll patience w e path meta sh made =
    let (kind, same) = made_by_metadata e path meta made in
    rw (sym same, kind) (append_kind-FailsBy tar poll patience meta.kind w _ sh kind)

-- Entries that a caller can make.
pub record IsFileEntry {B : Type 0} (e : PackEntry B) : Type 0 where
  pub path : SafePath
  pub meta : Meta
  pub size : ℕ
  pub body : B
  pub made : file_entry path meta size body ≡ ok e

pub record IsMetadataEntry (e : PackEntry (Unit {0})) : Type 0 where
  pub path : SafePath
  pub meta : Meta
  pub made : metadata_entry path meta ≡ ok e

module _ {T Z : Type 0} (plain : TarBuilder T) (zstd : TarBuilder Z) (patience : ℕ) where
  append_inner_file :
      {B : Type 0} (poll : Poller B) (i : Inner T Z) (e : PackEntry B) (sh : Shared)
      → IsFileEntry e
      → FailsBy is_body_failure (append_inner plain zstd poll patience i e sh).result
  unfolding append_inner conclude
  append_inner_file poll (tar_builder t) e sh f =
      append_made_file plain poll patience t e f.path f.meta f.size f.body sh f.made
  append_inner_file poll (zstd_builder z) e sh f =
      append_made_file zstd poll patience z e f.path f.meta f.size f.body sh f.made

  append_inner_metadata :
      (poll : Poller (Unit {0})) (i : Inner T Z) (e : PackEntry (Unit {0})) (sh : Shared)
      → IsMetadataEntry e
      → FailsBy is_transport (append_inner plain zstd poll patience i e sh).result
  unfolding append_inner conclude
  append_inner_metadata poll (tar_builder t) e sh m =
      append_made_metadata plain poll patience t e m.path m.meta sh m.made
  append_inner_metadata poll (zstd_builder z) e sh m =
      append_made_metadata zstd poll patience z e m.path m.meta sh m.made

  -- The entries that a caller can make are well formed for a writer that has not failed: if the append
  -- of a file's entry fails, it is by an I/O error or a body of another length than was declared, and
  -- if that of a directory's or a link's fails, it is by an I/O error, whatever its body would do. So
  -- neither is refused for a body that is missing or a payload that may not be there.
  pub append_entry-FailsBy :
      {B : Type 0} (poll : Poller B) (poll_none : Poller (Unit {0})) (w : Writer T Z)
      (f : PackEntry B) (m : PackEntry (Unit {0})) (sh : Shared)
      → w.failed ≡ false
      → IsFileEntry f
      → IsMetadataEntry m
      → FailsBy is_body_failure (append_entry plain zstd poll patience w f sh).result
        × FailsBy is_transport (append_entry plain zstd poll_none patience w m sh).result
  unfolding append_entry
  append_entry-FailsBy poll poll_none w f m sh alive file_ meta_ = rw alive (
    append_inner_file poll w.inner f sh file_,
    append_inner_metadata poll_none w.inner m sh meta_,
  )

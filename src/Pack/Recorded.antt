-- ===== src/Pack/Recorded.antt =====
-- The headers and paths that `append` of src/pack.rs hands to the tar builder.
use etar.Prelude.{
  ℕ, ◌≡◌, refl, ap, sym, ◌∙◌, false, Option, none, some, List, [], ◌∷◌, ◌++◌, Bytes, Result, ok,
  err, arith, Bool-cases, inl, inr, ◌==◌, not, ◌&&◌, ◌||◌,
}
use etar.Errors.{IoError}
use etar.Entry.{Kind, file, dir, symlink, hardlink, is_file}
use etar.Io.{Shared, Poller}
use etar.Pack.{
  PackEntry, base_header, append, append_kind, append_meta, meta_appended, append_file,
  file_appended, has_body,
}
use etar.Pack.Body.{Exact}
use etar.Pack.Builder.{EntryType, regular, Header, Appended, TarBuilder}

-- A header block and the path beside it.
abbrev pub Written : Type 0
Written = Header × Bytes

-- Any builder, with what it has been given beside its state.
abbrev pub recorded : {W : Type 0} → TarBuilder W → TarBuilder (W × List Written)
recorded tar = record {
  set_link_name = tar.set_link_name;
  append_data = λ S poll w header path body sh.
      let a = tar.append_data S poll w.0 header path body sh in
      record {
        builder = (a.builder, w.1 ++ (header, path) ∷ []);
        body = a.body;
        shared = a.shared;
        result = a.result;
      };
}

-- What tokio_tar documents of `set_link_name`: it changes nothing but the link's name.
abbrev pub SetsLinkName : {W : Type 0} → TarBuilder W → Type 0
SetsLinkName tar =
    (header : Header) (target : Bytes) (named : Header)
    → tar.set_link_name header target ≡ ok named
    → named ≡ record header { link_name = some target }

-- The entry type and the link's name of each kind.
abbrev pub type_of : Kind → EntryType
type_of file = regular
type_of dir = EntryType.directory
type_of (symlink target) = EntryType.symlink
type_of (hardlink target) = EntryType.link

abbrev pub link_of : Kind → Option Bytes
link_of file = none
link_of dir = none
link_of (symlink target) = some target
link_of (hardlink target) = some target

-- The header that stands for an entry.
abbrev pub header_of : {B : Type 0} → PackEntry B → Header
header_of e = record {
  mode = e.meta.mode;
  uid = e.meta.uid;
  gid = e.meta.gid;
  mtime = e.meta.mtime_unix_secs;
  entry_type = type_of e.meta.kind;
  size = e.size;
  link_name = link_of e.meta.kind;
}

ok_header : (g h : Header) → ◌≡◌ {A = Result Header IoError} (ok g) (ok h) → g ≡ h
ok_header g h e = cc

module _ {W B : Type 0} (tar : TarBuilder W) (sets : SetsLinkName tar) (poll : Poller B)
    (patience : ℕ) where
  file_appended-builder :
      (a : Appended (W × List Written) (Exact B)) (r : Option (Result (Unit {0}) IoError))
      → (file_appended (recorded tar) poll patience a r).builder ≡ a.builder
  unfolding file_appended
  file_appended-builder a none = refl
  file_appended-builder a (some (ok u)) = ground arith
  file_appended-builder a (some (err e)) = ground arith

  append_file-records :
      (w : W × List Written) (h : Header) (path : Bytes) (size : ℕ) (o : Option B) (sh : Shared)
      → (append_file (recorded tar) poll patience w h path size o sh).result ≡ some (ok tt)
      → (append_file (recorded tar) poll patience w h path size o sh).builder.1
        ≡ w.1 ++ (record h { entry_type = regular; size = size }, path) ∷ []
  unfolding append_file
  append_file-records w h path size none sh ok_ = cc
  append_file-records w h path size (some body) sh ok_ = ap (λ b. b.1) (file_appended-builder _ _)

  meta_appended-records :
      (w : W × List Written) (path : Bytes) (sh : Shared) (r : Result Header IoError)
      → (meta_appended (recorded tar) poll patience w path sh r).result ≡ some (ok tt)
      → (h : Header) × (r ≡ ok h)
        × ((meta_appended (recorded tar) poll patience w path sh r).builder.1
            ≡ w.1 ++ (h, path) ∷ [])
  unfolding meta_appended
  meta_appended-records w path sh (err e) ok_ = cc
  meta_appended-records w path sh (ok h) ok_ = (h, refl, refl)

  append_meta-records :
      (w : W × List Written) (h : Header) (path : Bytes) (kind : EntryType) (o : Option Bytes)
      (sh : Shared)
      → h.link_name ≡ none
      → (append_meta (recorded tar) poll patience w h path kind o sh).result ≡ some (ok tt)
      → (append_meta (recorded tar) poll patience w h path kind o sh).builder.1
        ≡ w.1 ++ (record h { entry_type = kind; size = 0; link_name = o }, path) ∷ []
  unfolding append_meta
  append_meta-records w h path kind none sh bare ok_ =
      let (h', same, log) = meta_appended-records w path sh _ ok_ in
      log
      ∙ ap (λ x. w.1 ++ (x, path) ∷ [])
          (sym (ok_header _ h' same)
            ∙ (λ i. record h { entry_type = kind; size = 0; link_name = bare i }))
  append_meta-records w h path kind (some target) sh bare ok_ =
      let (h', same, log) = meta_appended-records w path sh _ ok_ in
      log ∙ ap (λ x. w.1 ++ (x, path) ∷ []) (sets _ target h' same)

  sized_as :
      (k : Kind) (w : W × List Written) (e : PackEntry B)
      → e.size ≡ 0
      → (let h = record (header_of e) { entry_type = type_of k; link_name = link_of k } in
          w.1 ++ (record h { size = 0 }, e.path.path) ∷ [] ≡ w.1 ++ (h, e.path.path) ∷ [])
  sized_as k w e none_ =
      let h = record (header_of e) { entry_type = type_of k; link_name = link_of k } in
      ap (λ n. w.1 ++ (record h { size = n }, e.path.path) ∷ []) (sym none_)

  append_kind-records :
      (k : Kind) (w : W × List Written) (e : PackEntry B) (sh : Shared)
      → (is_file k ≡ false → e.size ≡ 0)
      → (append_kind (recorded tar) poll patience k w e sh).result ≡ some (ok tt)
      → (append_kind (recorded tar) poll patience k w e sh).builder.1
        ≡ w.1
          ++ (record (header_of e) { entry_type = type_of k; link_name = link_of k }, e.path.path)
            ∷ []
  unfolding append_kind base_header
  append_kind-records file w e sh sized ok_ =
      append_file-records w _ e.path.path e.size e.body sh ok_
  append_kind-records dir w e sh sized ok_ =
      append_meta-records w _ e.path.path EntryType.directory none sh refl ok_
      ∙ sized_as dir w e (sized refl)
  append_kind-records (symlink target) w e sh sized ok_ =
      append_meta-records w _ e.path.path EntryType.symlink (some target) sh refl ok_
      ∙ sized_as (symlink target) w e (sized refl)
  append_kind-records (hardlink target) w e sh sized ok_ =
      append_meta-records w _ e.path.path EntryType.link (some target) sh refl ok_
      ∙ sized_as (hardlink target) w e (sized refl)

  -- An entry that is appended with success has been given to the builder once, under its own header.
  pub append-records :
      (w : W × List Written) (e : PackEntry B) (sh : Shared)
      → (append (recorded tar) poll patience w e sh).result ≡ some (ok tt)
      → (append (recorded tar) poll patience w e sh).builder.1
        ≡ w.1 ++ (header_of e, e.path.path) ∷ []
  unfolding append
  append-records w e sh ok_ =
      elim (Bool-cases (
        not (is_file e.meta.kind)
        && (not (e.size == 0) || has_body (recorded tar) poll patience e.body))) [
          | inl x ↦ absurd (ground (arith, ok_, x))
          | inr x ↦
              rw x
                (append_kind-records e.meta.kind w e sh (λ f. ground (arith, x, f)) (rw x at ok_))
        ]

-- ===== src/Writer/RoundTrip.antt =====
-- Entries that a writer of src/writer.rs has appended, as `open_entry` of src/open.rs reads their
-- headers back.
use etar.Prelude.{
  ℕ, ◌<◌, ◌≤◌, ◌^◌, ◌≡◌, refl, ap, sym, ◌∙◌, Bool, true, false, Option, none, some, List, [], ◌∷◌,
  ◌++◌, append_assoc, append-nil, map, All, Bytes, length, Result, ok, err, ◌>>=◌, arith,
  Bool-cases, inl, inr, ◌==◌, not, ◌&&◌, ltb, ◌⊎◌,
}
use etar.Entry.{Kind, file, dir, symlink, hardlink, is_file, new_safe_path}
use etar.Limits.{SecurityLimits}
use etar.Io.{Shared, Poller}
use etar.Open.OpenEntry.{
  TarEntry, small_id, validate_path, link, classify, classify_type, read_meta, open_entry,
}
use etar.Open.OpenEntry.Accepted.{AllowedKind}
use etar.Pack.{PackEntry}
use etar.Pack.Builder.{Header, TarBuilder}
use etar.Pack.Recorded.{Written, recorded, SetsLinkName, header_of, append-records}
use etar.Reader.Body.{EntryHeader, header}
use etar.Writer.{
  Writer, Inner, tar_builder, zstd_builder, append_inner, append_entry, conclude, succeeded,
}
use etar.Writer.Poison.{append_all, all_succeeded}

-- What tokio_tar documents of an entry that it reads behind a header and a path: its accessors return
-- what was set.
pub record ReadsBack {C : Type 0} (h : Header) (name : Bytes) (t : TarEntry C) : Type 0 where
  pub path : t.path ≡ ok name
  pub entry_type : t.entry_type ≡ h.entry_type
  pub size : t.size ≡ ok h.size
  pub link_name : t.link_name ≡ ok h.link_name
  pub mode : t.mode ≡ ok h.mode
  pub uid : t.uid ≡ ok h.uid
  pub gid : t.gid ≡ ok h.gid
  pub mtime : t.mtime ≡ ok h.mtime

-- An entry within the limits, with a checked path and ids of 32 bits.
pub record IsWithin {B : Type 0} (limits : SecurityLimits) (e : PackEntry B) : Type 0 where
  pub safe : new_safe_path e.path.path ≡ ok e.path
  pub short : length e.path.path ≤ limits.max_path_len
  pub allowed : AllowedKind limits e.meta.kind
  pub sized : (is_file e.meta.kind ≡ true) ⊎ (e.size ≡ 0)
  pub small : e.size ≤ limits.max_entry_bytes
  pub uid : e.meta.uid < 2 ^ 32
  pub gid : e.meta.gid < 2 ^ 32

abbrev pub entry_header : {B : Type 0} → PackEntry B → EntryHeader
entry_header e = record { path = e.path; meta = e.meta; size_bytes = e.size }

no_payload : (f : Bool) (n : ℕ) → (f ≡ true) ⊎ (n ≡ 0) → (not f && not (n == 0)) ≡ false
no_payload f n (inl h) = ground (arith, h)
no_payload f n (inr h) = ground (arith, h)

module _ {B C : Type 0} (limits : SecurityLimits) (e : PackEntry B) (t : TarEntry C)
    (back : ReadsBack (header_of e) e.path.path t) (within : IsWithin limits e) where
  path-back : validate_path t limits ≡ ok e.path
  unfolding validate_path
  path-back =
      let short : ltb limits.max_path_len (length e.path.path) ≡ false =
        ground (arith, within.short) in
      rw (back.path, short) within.safe

  kind-back : (k : Kind) → e.meta.kind ≡ k → AllowedKind limits k → classify t limits ≡ ok k
  unfolding classify classify_type link
  kind-back file same allowed = rw (back.entry_type, same) refl
  kind-back dir same allowed = rw (back.entry_type, same) refl
  kind-back (symlink target) same allowed =
      rw (back.entry_type, same, allowed, back.link_name) (rw same refl)
  kind-back (hardlink target) same allowed =
      rw (back.entry_type, same, allowed, back.link_name) (rw same refl)

  meta-back : read_meta t e.meta.kind ≡ ok e.meta
  unfolding read_meta small_id
  meta-back =
      let uid : ltb e.meta.uid (2 ^ 32) ≡ true = ground (arith, within.uid) in
      let gid : ltb e.meta.gid (2 ^ 32) ≡ true = ground (arith, within.gid) in
      rw (back.mode, back.uid, back.gid, back.mtime, uid, gid) refl

  entry-back : (open_entry t limits >>= λ o. ok (header o)) ≡ ok (entry_header e)
  unfolding open_entry header read_meta
  entry-back =
      let small : ltb limits.max_entry_bytes e.size ≡ false = ground (arith, within.small) in
      rw
        (
          path-back,
          kind-back e.meta.kind refl within.allowed,
          back.size,
          no_payload (is_file e.meta.kind) e.size within.sized,
          small,
          meta-back,
        )
        refl

ok_of : {E : Type 0} (o : Option (Result (Unit {0}) E)) → succeeded o ≡ true → o ≡ some (ok tt)
ok_of none h = cc
ok_of (some (ok u)) h = refl
ok_of (some (err e)) h = cc

-- What the builder has been given, by what it stands on.
abbrev pub written : {T Z : Type 0} → Inner (T × List Written) (Z × List Written) → List Written
written (tar_builder t) = t.1
written (zstd_builder z) = z.1

module _ {T Z B : Type 0} (plain : TarBuilder T) (zstd : TarBuilder Z)
    (sets_plain : SetsLinkName plain) (sets_zstd : SetsLinkName zstd) (poll : Poller B)
    (patience : ℕ) where
  inner-records :
      (i : Inner (T × List Written) (Z × List Written)) (e : PackEntry B) (sh : Shared)
      → (let a = append_inner (recorded plain) (recorded zstd) poll patience i e sh in
          succeeded a.result ≡ true
          → written a.writer.inner ≡ written i ++ (header_of e, e.path.path) ∷ [])
  unfolding append_inner conclude
  inner-records (tar_builder t) e sh done =
      append-records plain sets_plain poll patience t e sh (ok_of _ done)
  inner-records (zstd_builder z) e sh done =
      append-records zstd sets_zstd poll patience z e sh (ok_of _ done)

  entry-records :
      (w : Writer (T × List Written) (Z × List Written)) (e : PackEntry B) (sh : Shared)
      → (let a = append_entry (recorded plain) (recorded zstd) poll patience w e sh in
          succeeded a.result ≡ true
          → written a.writer.inner ≡ written w.inner ++ (header_of e, e.path.path) ∷ [])
  unfolding append_entry
  entry-records w e sh = elim (Bool-cases w.failed) [
    | inl f ↦ rw f (λ done. cc)
    | inr f ↦ rw f (inner-records w.inner e sh)
  ]

  all-records :
      (w : Writer (T × List Written) (Z × List Written)) (es : List (PackEntry B)) (sh : Shared)
      → (let (last, results) = append_all (recorded plain) (recorded zstd) poll patience w es sh in
          all_succeeded (recorded plain) (recorded zstd) poll patience results ≡ true
          → written last.inner ≡ written w.inner ++ map (λ e. (header_of e, e.path.path)) es)
  unfolding append_all
  all-records w [] sh done = sym (append-nil (written w.inner))
  all-records w (e ∷ es) sh done =
      let a = append_entry (recorded plain) (recorded zstd) poll patience w e sh in
      elim (Bool-cases (succeeded a.result)) [
        | inl s ↦
            all-records a.writer es a.shared (rw s at done)
            ∙ (ap (λ x. x ++ map (λ e'. (header_of e', e'.path.path)) es) (entry-records w e sh s)
                ∙ append_assoc (written w.inner) _ _)
        | inr s ↦ let impossible : false ≡ true = rw s at done in cc
      ]

  module _ {C : Type 0} (limits : SecurityLimits) (read_back : Written → TarEntry C) where
    each-back :
        (es : List (PackEntry B))
        → All (IsWithin limits) es
        → All (λ e. ReadsBack (header_of e) e.path.path (read_back (header_of e, e.path.path))) es
        → map
            (λ r. open_entry (read_back r) limits >>= λ o. ok (header o))
            (map (λ e. (header_of e, e.path.path)) es)
          ≡ map (λ e. ok (entry_header e)) es
    each-back [] within back = refl
    each-back (e ∷ es) (w, within) (b, back) = λ i.
        entry-back limits e (read_back (header_of e, e.path.path)) b w i
        ∷ each-back es within back i

    -- A writer appends entries, each of which is within the limits; every append succeeds. Then the
    -- headers and paths that the tar builder has been given, read back by an archive whose accessors
    -- return what was set, are opened by `open_entry` to the same paths, metadata and sizes, in the
    -- same order. The builder's `set_link_name` changes nothing but the link's name, and it has been
    -- given nothing before.
    pub append_all-round_trip :
        (w : Writer (T × List Written) (Z × List Written)) (es : List (PackEntry B)) (sh : Shared)
        → written w.inner ≡ []
        → All (IsWithin limits) es
        → All (λ e. ReadsBack (header_of e) e.path.path (read_back (header_of e, e.path.path))) es
        → all_succeeded
            (recorded plain)
            (recorded zstd)
            poll
            patience
            (append_all (recorded plain) (recorded zstd) poll patience w es sh).1
          ≡ true
        → map
            (λ r. open_entry (read_back r) limits >>= λ o. ok (header o))
            (written (append_all (recorded plain) (recorded zstd) poll patience w es sh).0.inner)
          ≡ map (λ e. ok (entry_header e)) es
    append_all-round_trip w es sh fresh within back done =
        ap (map (λ r. open_entry (read_back r) limits >>= λ o. ok (header o)))
          (all-records w es sh done ∙ ap (λ x. x ++ map (λ e. (header_of e, e.path.path)) es) fresh)
        ∙ each-back es within back

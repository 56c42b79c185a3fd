-- ===== src/Open/OpenEntry/Accepted.antt =====
-- The entries that `open_entry` of src/open.rs accepts.
use etar.Prelude.{
  bind-ok, ok-injective, fail_if-ok, ◌⊎◌, inl, inr, ℕ, ◌^◌, ◌≤◌, ◌<◌, ◌≡◌, refl, ap, sym, ◌∙◌,
  subst, [], Bool, true, false, not, ◌&&◌, Bytes, length, ltb, ◌==◌, Result, ok, err, arith,
}
use etar.Errors.{IoError}
use etar.Limits.{SecurityLimits}
use etar.Entry.{Kind, file, dir, symlink, hardlink, is_file, Meta, SafePath, new_safe_path}
use etar.Entry.Safe.{new_safe_path_in_tree}
use etar.Open.Bounded.{new_bounded}
use etar.Open.OpenEntry.{
  TarEntry, OpenEntry, or_malformed, validate_path, classify_type, classify, small_id, read_meta,
  open_entry,
}
use etar.Pack.Builder.{EntryType}

-- Inversion of a successful bind.
-- The kinds that the limits let through.
abbrev pub AllowedKind : SecurityLimits → Kind → Type 0
AllowedKind limits file = Unit {0}
AllowedKind limits dir = Unit {0}
AllowedKind limits (symlink target) = limits.allow_symlinks ≡ true
AllowedKind limits (hardlink target) = limits.allow_hardlinks ≡ true

pub record IsAccepted {B : Type 0} (limits : SecurityLimits) (entry : TarEntry B) (o : OpenEntry B)
    : Type 0 where
  pub stored : entry.path ≡ ok o.path.path
  pub safe : new_safe_path o.path.path ≡ ok o.path
  pub short : length o.path.path ≤ limits.max_path_len
  pub allowed : AllowedKind limits o.meta.kind
  pub no_payload : (is_file o.meta.kind ≡ true) ⊎ (o.size_bytes ≡ 0)
  pub small : o.size_bytes ≤ limits.max_entry_bytes
  pub uid : o.meta.uid < 2 ^ 32
  pub gid : o.meta.gid < 2 ^ 32
  pub bounded : o.body ≡ new_bounded entry.body limits.max_entry_bytes

-- The same by the two flags.
abbrev Permits : Bool → Bool → Kind → Type 0
Permits sym_ok hard_ok file = Unit {0}
Permits sym_ok hard_ok dir = Unit {0}
Permits sym_ok hard_ok (symlink target) = sym_ok ≡ true
Permits sym_ok hard_ok (hardlink target) = hard_ok ≡ true

permitted :
    {B : Type 0} (t : EntryType) (entry : TarEntry B) (sym_ok hard_ok : Bool) (k : Kind)
    → classify_type t entry sym_ok hard_ok ≡ ok k
    → Permits sym_ok hard_ok k
unfolding classify_type
permitted t entry sym_ok hard_ok file h = tt
permitted t entry sym_ok hard_ok dir h = tt
permitted EntryType.symlink entry true hard_ok (symlink target) h = refl
permitted t entry sym_ok hard_ok (symlink target) h = ground arith
permitted t entry sym_ok hard_ok (hardlink target) h = ground arith

as_allowed :
    (limits : SecurityLimits) (k : Kind)
    → Permits limits.allow_symlinks limits.allow_hardlinks k
    → AllowedKind limits k
as_allowed limits file h = tt
as_allowed limits dir h = tt
as_allowed limits (symlink target) h = h
as_allowed limits (hardlink target) h = h

classify-AllowedKind :
    {B : Type 0} (t : EntryType) (entry : TarEntry B) (limits : SecurityLimits) {k : Kind}
    → classify_type t entry limits.allow_symlinks limits.allow_hardlinks ≡ ok k
    → AllowedKind limits k
unfolding classify_type
classify-AllowedKind t entry limits {k} h =
    as_allowed limits k (permitted t entry limits.allow_symlinks limits.allow_hardlinks k h)

or_malformed-ok : {A : Type 0} (r : Result A IoError) {a : A} → or_malformed r ≡ ok a → r ≡ ok a
or_malformed-ok (ok a) h = cc
or_malformed-ok (err e) h = cc

validate_path-ok :
    {B : Type 0} (entry : TarEntry B) (limits : SecurityLimits) {p : SafePath}
    → validate_path entry limits ≡ ok p
    → (raw : Bytes) × (entry.path ≡ ok raw)
      × (length raw ≤ limits.max_path_len)
      × (new_safe_path raw ≡ ok p)
unfolding validate_path
validate_path-ok entry limits h =
    let (raw, p, h') = bind-ok (or_malformed entry.path) _ h in
    let (short, safe) = fail_if-ok _ _ (new_safe_path raw) h' in
    (raw, or_malformed-ok entry.path p, ground arith, safe)

small_id-ok : (n : ℕ) {m : ℕ} → small_id n ≡ ok m → m < 2 ^ 32
unfolding small_id
small_id-ok n h = ground arith

read_meta-ok :
    {B : Type 0} (entry : TarEntry B) (k : Kind) {m : Meta}
    → read_meta entry k ≡ ok m
    → (m.uid < 2 ^ 32) × (m.gid < 2 ^ 32) × (m.kind ≡ k)
unfolding read_meta
read_meta-ok entry k h =
    let (mode, _, h1) = bind-ok (or_malformed entry.mode) _ h in
    let (raw_uid, _, h2) = bind-ok (or_malformed entry.uid) _ h1 in
    let (uid, u, h3) = bind-ok (small_id raw_uid) _ h2 in
    let (raw_gid, _, h4) = bind-ok (or_malformed entry.gid) _ h3 in
    let (gid, g, h5) = bind-ok (small_id raw_gid) _ h4 in
    let (mtime, _, h6) = bind-ok (or_malformed entry.mtime) _ h5 in
    (ground (arith, small_id-ok raw_uid u), ground (arith, small_id-ok raw_gid g), ground arith)

no_size : (f : Bool) (n : ℕ) → (not f && not (n == 0)) ≡ false → (f ≡ true) ⊎ (n ≡ 0)
no_size true n h = inl refl
no_size false n h = inr (ground arith)

within : (n max : ℕ) → ltb max n ≡ false → n ≤ max
within n max h = ground arith

pub open_entry-IsAccepted :
    {B : Type 0} (entry : TarEntry B) (limits : SecurityLimits) {o : OpenEntry B}
    → open_entry entry limits ≡ ok o
    → IsAccepted limits entry o
unfolding open_entry classify
open_entry-IsAccepted {B} entry limits {o} h =
    let (path, p, h1) = bind-ok (validate_path entry limits) _ h in
    let (k, c, h2) = bind-ok (classify entry limits) _ h1 in
    let (size, _, h3) = bind-ok (or_malformed entry.size) _ h2 in
    let (no_payload, h4) = fail_if-ok _ _ _ h3 in
    let (small, h5) = fail_if-ok _ _ _ h4 in
    let (m, r, h6) = bind-ok (read_meta entry k) _ h5 in
    let (raw, stored, short, safe) = validate_path-ok entry limits p in
    let (uid, gid, same_kind) = read_meta-ok entry k r in
    let allowed = classify-AllowedKind entry.entry_type entry limits c in
    let same = (new_safe_path_in_tree [] raw safe).0 in
    let opened : OpenEntry B = record {
      path = path;
      meta = m;
      size_bytes = size;
      body = new_bounded entry.body limits.max_entry_bytes;
    } in
    subst (IsAccepted limits entry) {x = opened} (ok-injective h6) (record {
      stored = stored ∙ ap (λ x. ok x) (sym same);
      safe = subst (λ r. new_safe_path r ≡ ok path) (sym same) safe;
      short = subst (λ r. length r ≤ limits.max_path_len) (sym same) short;
      allowed = subst (AllowedKind limits) (sym same_kind) allowed;
      no_payload =
          subst (λ x. (is_file x ≡ true) ⊎ (size ≡ 0)) (sym same_kind)
            (no_size (is_file k) size no_payload);
      small = within size limits.max_entry_bytes small;
      uid = uid;
      gid = gid;
      bounded = refl;
    })

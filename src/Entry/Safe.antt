-- ===== src/Entry/Safe.antt =====
-- The paths that `SafePath::new` of src/entry.rs accepts, and where they lead.
use etar.Prelude.{
  ℕ, ◌≡◌, refl, sym, ◌∙◌, Bool, true, false, List, [], ◌∷◌, ◌++◌, Bytes, Result, ok, err, any, drop,
  ◌==◌, if◌then◌else◌, arith, Bool-cases, inl, inr,
}
use etar.Errors.{Error, absolute_path, parent_escape, empty_path, nul_path}
use etar.Entry.{
  Component, pieces, is_dot, is_dot_dot, is_empty, later_component, later_components, components_of,
  components, reject_unsafe, reject_all, validate, SafePath, new_safe_path,
}

-- The path begins with a slash.
abbrev pub is_absolute : Bytes → Bool
is_absolute [] = false
is_absolute (c ∷ s) = c == b'/'

-- The rules for an entry path, read off its bytes and the pieces between its slashes.
abbrev pub path_rules : Bytes → Result SafePath Error
path_rules path =
    if is_empty path
    then err empty_path
    else if any (λ c. c == 0) path
    then err nul_path
    else if is_absolute path
    then err absolute_path
    else if any is_dot_dot (pieces [] path)
    then err parent_escape
    else ok (record { path = path })

abbrev escapes : Bool → Result (Unit {0}) Error
escapes b = if b then err parent_escape else ok tt

reject-later_component :
    (p : Bytes) (cs : List Component)
    → reject_all (later_component p ++ cs)
      ≡ (if is_dot_dot p then err parent_escape else reject_all cs)
unfolding reject_all reject_unsafe later_component
reject-later_component [] cs = refl
reject-later_component (c ∷ []) cs = ground arith
reject-later_component (c ∷ d ∷ []) cs = ground arith
reject-later_component (c ∷ d ∷ e ∷ s) cs = refl

reject-later_components :
    (ps : List Bytes) → reject_all (later_components ps) ≡ escapes (any is_dot_dot ps)
unfolding later_components
reject-later_components [] = unfold reject_all in refl
reject-later_components (p ∷ ps) =
    rw (reject-later_component p (later_components ps), reject-later_components ps) (ground arith)

-- The first piece keeps the bytes that it begins with.
pieces-cons :
    (d : ℕ) (cur s : Bytes) → (q : Bytes) × (ps : List Bytes) × (pieces (d ∷ cur) s ≡ (d ∷ q) ∷ ps)
unfolding pieces
pieces-cons d cur [] = (cur, [], refl)
pieces-cons d cur (c ∷ s) = elim (Bool-cases (c == b'/')) [
  | inl e ↦ (cur, pieces [] s, rw (e, pieces))
  | inr e ↦ let (q, ps, h) = pieces-cons d (cur ++ c ∷ []) s in (q, ps, rw (e, pieces) h)
]

pieces-ne : (cur s : Bytes) → (q : Bytes) × (ps : List Bytes) × (pieces cur s ≡ q ∷ ps)
unfolding pieces
pieces-ne cur [] = (cur, [], refl)
pieces-ne cur (c ∷ s) = elim (Bool-cases (c == b'/')) [
  | inl e ↦ (cur, pieces [] s, rw (e, pieces))
  | inr e ↦ let (q, ps, h) = pieces-ne (cur ++ c ∷ []) s in (q, ps, rw (e, pieces) h)
]

is_dot-not-is_dot_dot : (p : Bytes) → is_dot p ≡ true → is_dot_dot p ≡ false
is_dot-not-is_dot_dot [] h = refl
is_dot-not-is_dot_dot (c ∷ []) h = refl
is_dot-not-is_dot_dot (c ∷ d ∷ s) h = cc

reject-components_of :
    (d : ℕ) (q : Bytes) (ps : List Bytes)
    → reject_all (components_of ((d ∷ q) ∷ ps)) ≡ escapes (any is_dot_dot ((d ∷ q) ∷ ps))
unfolding components_of
reject-components_of d q ps = elim (Bool-cases (is_dot (d ∷ q))) [
  | inl e ↦
      rw (e, is_dot-not-is_dot_dot (d ∷ q) e)
        (unfold reject_all reject_unsafe in reject-later_components ps)
  | inr e ↦
      rw (e, reject-later_component (d ∷ q) (later_components ps), reject-later_components ps)
        (ground arith)
]

-- A path without a leading slash is rejected exactly for a `..` piece.
pub reject-components_relative :
    (c : ℕ) (s : Bytes)
    → (c == b'/') ≡ false
    → reject_all (components (c ∷ s)) ≡ escapes (any is_dot_dot (pieces [] (c ∷ s)))
unfolding components
reject-components_relative c s h =
    let (q, ps, e) = pieces-cons c [] s in
    let e' : pieces [] (c ∷ s) ≡ (c ∷ q) ∷ ps = unfold pieces in rw (h, pieces) e in
    rw e' (reject-components_of c q ps)

reject-components_absolute :
    (c : ℕ) (s : Bytes) → (c == b'/') ≡ true → reject_all (components (c ∷ s)) ≡ err absolute_path
unfolding components
reject-components_absolute c s h =
    let (q, ps, e) = pieces-ne [] s in
    let e' : pieces [] (c ∷ s) ≡ [] ∷ q ∷ ps = unfold pieces in rw (h, pieces, e) in
    rw e' (unfold components_of reject_all reject_unsafe in refl)

-- For every list of bytes, `SafePath::new` gives what the rules on its bytes say: an empty path, a
-- zero byte, a leading slash and a `..` piece are refused in this order, each by its own error, and
-- any other path is kept as it is.
pub new_safe_path-rules : (path : Bytes) → new_safe_path path ≡ path_rules path
unfolding new_safe_path validate
new_safe_path-rules [] = refl
new_safe_path-rules (c ∷ s) = elim (Bool-cases (c == b'/')) [
  | inl e ↦ rw (reject-components_absolute c s e) (ground arith)
  | inr e ↦ rw (reject-components_relative c s e) (ground arith)
]

-- Where a path leads from a directory, which is the list of the names below the file system's root,
-- the last one first: a leading slash starts at the root, `..` goes up and a name goes down.
abbrev pub step_into : List Bytes → Bytes → List Bytes
step_into at [] = at
step_into at (c ∷ s) =
    if is_dot (c ∷ s) then at else if is_dot_dot (c ∷ s) then drop 1 at else (c ∷ s) ∷ at

abbrev pub walk : List Bytes → List Bytes → List Bytes
walk at [] = at
walk at (p ∷ ps) = walk (step_into at p) ps

abbrev pub destination : List Bytes → Bytes → List Bytes
destination root path = walk (if is_absolute path then [] else root) (pieces [] path)

step_into-below :
    (root names : List Bytes) (p : Bytes)
    → is_dot_dot p ≡ false
    → (more : List Bytes) × (step_into (names ++ root) p ≡ more ++ root)
step_into-below root names [] h = (names, refl)
step_into-below root names (c ∷ s) h = elim (Bool-cases (is_dot (c ∷ s))) [
  | inl e ↦ (names, rw e)
  | inr e ↦ ((c ∷ s) ∷ names, rw (e, h))
]

walk-below :
    (root names ps : List Bytes)
    → any is_dot_dot ps ≡ false
    → (more : List Bytes) × (walk (names ++ root) ps ≡ more ++ root)
walk-below root names [] h = (names, refl)
walk-below root names (p ∷ ps) h =
    let (more, e) = step_into-below root names p (ground arith) in
    rw e (walk-below root more ps (ground arith))

path_rules-ok :
    (path : Bytes) {safe : SafePath}
    → path_rules path ≡ ok safe
    → (safe.path ≡ path) × (is_absolute path ≡ false) × (any is_dot_dot (pieces [] path) ≡ false)
path_rules-ok path h = (ground arith, ground arith, ground arith)

-- An accepted path is stored byte for byte, and from any directory it leads to that directory or to
-- a place below it.
pub new_safe_path_in_tree :
    (root : List Bytes) (path : Bytes) {safe : SafePath}
    → new_safe_path path ≡ ok safe
    → (safe.path ≡ path) × ((names : List Bytes) × (destination root safe.path ≡ names ++ root))
new_safe_path_in_tree root path h =
    let (same, relative, clean) = path_rules-ok path (sym (new_safe_path-rules path) ∙ h) in
    (same, rw (same, relative) (walk-below root [] (pieces [] path) clean))

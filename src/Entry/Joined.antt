-- ===== src/Entry/Joined.antt =====
-- The two property tests of src/entry.rs, on paths that are joined from components by slashes.
use etar.Prelude.{
  ℕ, ◌≡◌, ◌≢◌, refl, ap, sym, ◌∙◌, Bool, true, false, ◌||◌, List, [], ◌∷◌, ◌++◌, append_assoc,
  append-nil, Bytes, Result, ok, err, any, all, All, ◌==◌, if◌then◌else◌, arith, Bool-cases, inl,
  inr,
}
use etar.Errors.{Error, absolute_path, parent_escape}
use etar.Entry.{
  Component, prefix, root_dir, cur_dir, parent_dir, normal, pieces, is_dot_dot, is_empty,
  reject_unsafe, reject_all, components, SafePath, new_safe_path,
}
use etar.Entry.Safe.{is_absolute, path_rules, new_safe_path-rules, reject-components_relative}

-- `parts.join("/")`.
unfoldable pub join : List Bytes → Bytes
join [] = []
join (p ∷ []) = p
join (p ∷ (q ∷ ps)) = p ++ b'/' ∷ join (q ∷ ps)

-- `matches!(c, Component::Normal(_) | Component::CurDir)`.
unfoldable pub is_plain : Component → Bool
is_plain (prefix p) = false
is_plain root_dir = false
is_plain cur_dir = true
is_plain parent_dir = false
is_plain (normal s) = true

abbrev is_parent_escape : {A : Type 0} → Result A Error → Bool
is_parent_escape (err parent_escape) = true
is_parent_escape _ = false

abbrev is_absolute_path : {A : Type 0} → Result A Error → Bool
is_absolute_path (err absolute_path) = true
is_absolute_path _ = false

abbrev has_plain_components : Result SafePath Error → Bool
has_plain_components (ok safe) = all is_plain (components safe.path)
has_plain_components (err e) = false

unfoldable pub rejected_iff_escape_present : List Bytes → Bool
rejected_iff_escape_present parts =
    let result = new_safe_path (join parts) in
    if any is_dot_dot parts then is_parent_escape result else has_plain_components result

unfoldable pub leading_slash_is_absolute : List Bytes → Bool
leading_slash_is_absolute parts = is_absolute_path (new_safe_path (b'/' ∷ join parts))

-- A component that a test may draw: `..`, `.`, a name, or any other bytes but the slash and zero.
pub record IsPart (p : Bytes) : Type 0 where
  pub some_bytes : p ≢ []
  pub no_slash : any (λ c. c == b'/') p ≡ false
  pub no_zero : any (λ c. c == 0) p ≡ false

pieces-part : (cur p : Bytes) → any (λ c. c == b'/') p ≡ false → pieces cur p ≡ (cur ++ p) ∷ []
unfolding pieces
pieces-part cur [] h = ap (λ r. r ∷ []) (sym (append-nil cur))
pieces-part cur (c ∷ p) h =
    let other : (c == b'/') ≡ false = ground (arith, h) in
    rw (other, pieces)
      (pieces-part (cur ++ c ∷ []) p (ground (arith, h))
        ∙ ap (λ r. r ∷ []) (append_assoc cur (c ∷ []) p))

pieces-append :
    (cur p s : Bytes)
    → any (λ c. c == b'/') p ≡ false
    → pieces cur (p ++ b'/' ∷ s) ≡ (cur ++ p) ∷ pieces [] s
unfolding pieces
pieces-append cur [] s h = ap (λ r. r ∷ pieces [] s) (sym (append-nil cur))
pieces-append cur (c ∷ p) s h =
    let other : (c == b'/') ≡ false = ground (arith, h) in
    rw (other, pieces)
      (pieces-append (cur ++ c ∷ []) p s (ground (arith, h))
        ∙ ap (λ r. r ∷ pieces [] s) (append_assoc cur (c ∷ []) p))

-- Splitting undoes the join.
pieces-join :
    (p : Bytes) (ps : List Bytes) → All IsPart (p ∷ ps) → pieces [] (join (p ∷ ps)) ≡ p ∷ ps
unfolding join
pieces-join p [] (h, t) = pieces-part [] p h.no_slash
pieces-join p (q ∷ ps) (h, t) =
    pieces-append [] p (join (q ∷ ps)) h.no_slash ∙ ap (λ r. p ∷ r) (pieces-join q ps t)

any-append :
    {A : Type 0} (f : A → Bool) (xs ys : List A) → any f (xs ++ ys) ≡ (any f xs || any f ys)
any-append f [] ys = refl
any-append f (x ∷ xs) ys = rw (any-append f xs ys) (ground arith)

join-no_zero :
    (p : Bytes) (ps : List Bytes) → All IsPart (p ∷ ps) → any (λ c. c == 0) (join (p ∷ ps)) ≡ false
unfolding join
join-no_zero p [] (h, t) = h.no_zero
join-no_zero p (q ∷ ps) (h, t) =
    rw (any-append (λ c. c == 0) p (b'/' ∷ join (q ∷ ps)), h.no_zero) (join-no_zero q ps t)

-- The first byte of a join is not a slash.
join-relative :
    (p : Bytes) (ps : List Bytes)
    → All IsPart (p ∷ ps)
    → (c : ℕ) × (s : Bytes) × (join (p ∷ ps) ≡ c ∷ s) × ((c == b'/') ≡ false)
unfolding join
join-relative [] ps (h, t) = elim (h.some_bytes refl) [ ]
join-relative (c ∷ p) [] (h, t) = (c, p, refl, ground (arith, h.no_slash))
join-relative (c ∷ p) (q ∷ ps) (h, t) =
    (c, p ++ b'/' ∷ join (q ∷ ps), refl, ground (arith, h.no_slash))

reject_all-plain : (cs : List Component) → reject_all cs ≡ ok tt → all is_plain cs ≡ true
unfolding reject_all reject_unsafe is_plain
reject_all-plain [] h = refl
reject_all-plain (prefix p ∷ cs) h = cc
reject_all-plain (root_dir ∷ cs) h = cc
reject_all-plain (cur_dir ∷ cs) h = reject_all-plain cs h
reject_all-plain (parent_dir ∷ cs) h = cc
reject_all-plain (normal s ∷ cs) h = reject_all-plain cs h

rules-relative :
    (raw : Bytes) (c : ℕ) (s : Bytes)
    → raw ≡ c ∷ s
    → (c == b'/') ≡ false
    → any (λ c. c == 0) raw ≡ false
    → path_rules raw
      ≡ (if any is_dot_dot (pieces [] raw) then err parent_escape else ok (record { path = raw }))
rules-relative raw c s e relative no_zero =
    rw (ap is_empty e, no_zero, ap is_absolute e ∙ relative) refl

new_safe_path-join :
    (p : Bytes) (ps : List Bytes)
    → All IsPart (p ∷ ps)
    → new_safe_path (join (p ∷ ps)) ≡ (
        if any is_dot_dot (p ∷ ps) then err parent_escape else ok (record { path = join (p ∷ ps) }))
new_safe_path-join p ps parts =
    let (c, s, e, relative) = join-relative p ps parts in
    let raw = join (p ∷ ps) in
    new_safe_path-rules raw
    ∙ rules-relative raw c s e relative (join-no_zero p ps parts)
    ∙ ap (λ r. if any is_dot_dot r then err parent_escape else ok (record { path = raw }))
        (pieces-join p ps parts)

join-plain :
    (p : Bytes) (ps : List Bytes)
    → All IsPart (p ∷ ps)
    → any is_dot_dot (p ∷ ps) ≡ false
    → all is_plain (components (join (p ∷ ps))) ≡ true
join-plain p ps parts none_ =
    let (c, s, e, relative) = join-relative p ps parts in
    let split : pieces [] (c ∷ s) ≡ p ∷ ps = ap (pieces []) (sym e) ∙ pieces-join p ps parts in
    let passes : reject_all (components (c ∷ s)) ≡ ok tt =
      reject-components_relative c s relative ∙ rw (split, none_) refl in
    rw e (reject_all-plain (components (c ∷ s)) passes)

-- Both property tests hold of every list of components, not only of those that they draw: of any
-- number of components from one on, each not empty and without a slash or a zero byte. Joined by
-- slashes they are refused as an escape if one of them is `..`, and are accepted with plain components
-- if none is; behind a slash they are refused as an absolute path.
pub join-passes :
    (p : Bytes) (ps : List Bytes)
    → All IsPart (p ∷ ps)
    → (rejected_iff_escape_present (p ∷ ps) ≡ true) × (leading_slash_is_absolute (p ∷ ps) ≡ true)
unfolding rejected_iff_escape_present leading_slash_is_absolute
join-passes p ps parts = (
  elim (Bool-cases (any is_dot_dot (p ∷ ps))) [
    | inl e ↦ rw (new_safe_path-join p ps parts, e) refl
    | inr e ↦ rw (new_safe_path-join p ps parts, e) (join-plain p ps parts e)
  ],
  rw (new_safe_path-rules (b'/' ∷ join (p ∷ ps)), join-no_zero p ps parts) refl,
)

-- ===== src/Guard/Pax/Whole.antt =====
-- What `parse_pax_size` of src/guard.rs accepts: whole records, and nothing behind them.
use etar.Prelude.{
  ℕ, Bool, bind-ok, ok-injective, fail_if-ok, zero, suc, ◌+◌, ◌-◌, ◌≤◌, ◌<◌, ◌≡◌, refl, ap, sym,
  ◌∙◌, subst, true, false, not, ◌||◌, Option, none, some, List, [], ◌∷◌, ◌++◌, append_assoc, Bytes,
  All, length, take, drop, arith, ltb, leb, ◌==◌, Bool-cases, Option-cases, inl, inr, length-append,
  length-take, length-drop, take-append-drop, drop-drop, Result, ok, ok_or,
}
use etar.Errors.{IoError}
use etar.Guard.Pax.{
  decimal, position, ends_with_newline, size_of, parse_record, parse_records, parse_pax_size,
  malformed_io,
}
use etar.Guard.Pax.Records.{PaxRecord, record_bytes, IsWell, size_after, body_of}
use etar.Guard.Pax.Loop.{parse_pax_size-body_of}

some_index : (i j : ℕ) → ◌≡◌ {A = Option ℕ} (some j) (some i) → i ≡ j
some_index i j h = cc

position-split :
    (b : ℕ) (s : Bytes) (i : ℕ)
    → position b s ≡ some i
    → (i < length s) × (s ≡ take i s ++ (b ∷ drop (suc i) s))
unfolding position
position-split b [] i h = cc
position-split b (c ∷ s) i h = elim (Bool-cases (c == b)) [
  | inl e ↦
      let first : i ≡ 0 = some_index i 0 (rw e at h) in
      let same : c ≡ b = ground arith in
      subst (λ k. (k < suc (length s)) × (c ∷ s ≡ take k (c ∷ s) ++ (b ∷ drop (suc k) (c ∷ s))))
        (sym first) (omega arith, ap (λ x. x ∷ s) same)
  | inr e ↦ elim (Option-cases (position b s)) [
    | inl none_ ↦ let impossible : ◌≡◌ {A = Option ℕ} none (some i) = rw none_ at (rw e at h) in cc
    | inr (j, some_) ↦
        let next : i ≡ suc j = some_index i (suc j) (rw some_ at (rw e at h)) in
        let (fits, split) = position-split b s j some_ in
        subst (λ k. (k < suc (length s)) × (c ∷ s ≡ take k (c ∷ s) ++ (b ∷ drop (suc k) (c ∷ s))))
          (sym next) (omega (arith, fits), ap (λ x. c ∷ x) split)
  ]
]

is_newline : (c : ℕ) → (c == b'\n') ≡ true → c ≡ b'\n'
is_newline c h = ground arith

newline-split :
    (s : Bytes) → ends_with_newline s ≡ true → (payload : Bytes) × (s ≡ payload ++ (b'\n' ∷ []))
newline-split [] h = cc
newline-split (c ∷ []) h = ([], ap (λ x. x ∷ []) (is_newline c h))
newline-split (c ∷ d ∷ s) h =
    let (payload, e) = newline-split (d ∷ s) h in (c ∷ payload, ap (λ x. c ∷ x) e)

ok_or-ok : {A : Type 0} (o : Option A) (e : IoError) {a : A} → ok_or e o ≡ ok a → o ≡ some a
ok_or-ok none e h = cc
ok_or-ok (some a) e h = ap some (ok-injective h)

no_not : (t : Bool) → not t ≡ false → t ≡ true
no_not true h = refl
no_not false h = cc

pair_len :
    {n len : ℕ} {a b : Option ℕ}
    → ◌≡◌ {A = Result (ℕ × Option ℕ) IoError} (ok (n, a)) (ok (len, b))
    → n ≡ len
pair_len h = ap (λ x. x.0) (ok-injective h)

-- The checks of a round that succeeds.
record Round (body : Bytes) (len : ℕ) : Type 0 where
  pub space : ℕ
  pub found : position b' ' body ≡ some space
  pub counted : decimal (take space body) ≡ some len
  pub in_range : (leb len (space + 2) || ltb (length body) len) ≡ false
  pub newline : ends_with_newline (take (len - (space + 1)) (drop (space + 1) body)) ≡ true

parse_record-Round :
    (body : Bytes) (size : Option ℕ) (len : ℕ) (size' : Option ℕ)
    → parse_record body size ≡ ok (len, size')
    → Round body len
unfolding parse_record
parse_record-Round body size len size' h =
    let (space, p, h1) = bind-ok (ok_or malformed_io (position b' ' body)) _ h in
    let (n, d, h2) = bind-ok (ok_or malformed_io (decimal (take space body))) _ h1 in
    let (f, h3) = fail_if-ok _ malformed_io _ h2 in
    let (e, h4) = fail_if-ok _ malformed_io _ h3 in
    let (size'', z, h5) = bind-ok (size_of size _) _ h4 in
    let same : n ≡ len = pair_len h5 in
    subst (Round body) same (record {
      space = space;
      found = ok_or-ok _ malformed_io p;
      counted = ok_or-ok _ malformed_io d;
      in_range = f;
      newline = no_not _ e;
    })

in_bounds :
    (len space size : ℕ)
    → (leb len (space + 2) || ltb size len) ≡ false
    → (space + 2 < len) × (len ≤ size)
in_bounds len space size h = (ground (arith, h), ground (arith, h))

Round-record :
    (body : Bytes) (len : ℕ)
    → Round body len
    → (r : PaxRecord) × IsWell r × (body ≡ record_bytes r ++ drop len body)
Round-record body len r =
    let (fits, split) = position-split b' ' body r.space r.found in
    let behind = drop (r.space + 1) body in
    let (payload, ends) = newline-split (take (len - (r.space + 1)) behind) r.newline in
    let rest = len - (r.space + 1) in
    let record_ : PaxRecord = record { digits = take r.space body; payload = payload } in
    let range : (r.space + 2 < len) × (len ≤ length body) =
      in_bounds len r.space (length body) r.in_range in
    let bytes : record_bytes record_ ≡ take r.space body ++ (b' ' ∷ take rest behind) =
      ap (λ x. take r.space body ++ (b' ' ∷ x)) (sym ends) in
    let next : suc r.space ≡ r.space + 1 = omega arith in
    let ends_at : r.space + 1 + rest ≡ len = omega (arith, range) in
    let size : length (record_bytes record_) ≡ len = omega (
      arith,
      ap length bytes,
      length-append (take r.space body) (b' ' ∷ take rest behind),
      length-take r.space body,
      length-take rest behind,
      length-drop (r.space + 1) body,
      range,
      fits,
    ) in
    (
      record_,
      record {
        counted = r.counted ∙ ap some (sym size);
        some_payload = λ none_. absurd (
            omega (
              arith,
              ap length ends,
              ap length none_,
              length-append payload (b'\n' ∷ []),
              length-take rest behind,
              length-drop (r.space + 1) body,
              range,
            ));
      },
      split
          ∙ (ap (λ k. take r.space body ++ (b' ' ∷ drop k body)) next
              ∙ (ap (λ x. take r.space body ++ (b' ' ∷ x))
                    (sym (take-append-drop rest behind)
                      ∙ ap (λ x. take rest behind ++ x)
                          (sym (drop-drop (r.space + 1) rest body) ∙ ap (λ k. drop k body) ends_at))
                  ∙ (sym
                        (append_assoc (take r.space body) (b' ' ∷ take rest behind) (drop len body))
                      ∙ ap (λ x. x ++ drop len body) (sym bytes)))),
    )

parse_records-IsWhole :
    (fuel : ℕ) (body : Bytes) (size : Option ℕ) {last : Option ℕ}
    → parse_records fuel body size ≡ ok last
    → (rs : List PaxRecord) × All IsWell rs × (body ≡ body_of rs)
unfolding parse_records
parse_records-IsWhole zero [] size h = ([], tt, refl)
parse_records-IsWhole (suc fuel) [] size h = ([], tt, refl)
parse_records-IsWhole zero (b ∷ body) size h = cc
parse_records-IsWhole (suc fuel) (b ∷ body) size h =
    let ((len, size'), e, h1) = bind-ok (parse_record (b ∷ body) size) _ h in
    let (r, well, split) =
      Round-record (b ∷ body) len (parse_record-Round (b ∷ body) size len size' e) in
    let (rs, wells, rest) = parse_records-IsWhole fuel (drop len (b ∷ body)) size' h1 in
    (r ∷ rs, (well, wells), split ∙ ap (λ x. record_bytes r ++ x) rest)

-- If `parse_pax_size` accepts a body, the body is whole records one after another, each with its own
-- length in front, with nothing behind them, and the size is what these records give in order.
pub parse_pax_size-IsWhole :
    (body : Bytes) (size : Option ℕ)
    → parse_pax_size body ≡ ok size
    → (rs : List PaxRecord) × All IsWell rs × (body ≡ body_of rs) × (size_after none rs ≡ ok size)
unfolding parse_pax_size
parse_pax_size-IsWhole body size h =
    let (rs, wells, whole) = parse_records-IsWhole (length body) body none h in
    (rs, wells, whole, sym (parse_pax_size-body_of rs wells) ∙ (ap parse_pax_size (sym whole) ∙ h))

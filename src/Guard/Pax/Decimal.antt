-- ===== src/Guard/Pax/Decimal.antt =====
-- `decimal` of src/guard.rs against the digits and the number that they spell.
use etar.Prelude.{ℕ, ◌+◌, ◌-◌, ◌*◌, ◌≤◌, ◌<◌, ◌≡◌, ◌≢◌, refl, ◌↔◌, some, [], ◌∷◌, Bytes, All, arith}
use etar.Io.{u64_mod}
use etar.Guard.Pax.{decimal, decimal_from, add_digit}

abbrev pub IsDigit : ℕ → Type 0
IsDigit c = (b'0' ≤ c) × (c ≤ b'9')

-- The number that the digits spell behind `n`, with no bound.
abbrev pub number_from : ℕ → Bytes → ℕ
number_from n [] = n
number_from n (c ∷ s) = number_from (n * 10 + (c - b'0')) s

le-number_from : (n : ℕ) (s : Bytes) → n ≤ number_from n s
le-number_from n [] = omega arith
le-number_from n (c ∷ s) = omega (arith, le-number_from (n * 10 + (c - b'0')) s)

decimal_from-some :
    (n : ℕ) (s : Bytes) {r : ℕ}
    → n < u64_mod
    → decimal_from n s ≡ some r
    → All IsDigit s × (r ≡ number_from n s) × (r < u64_mod)
unfolding decimal_from add_digit
decimal_from-some n [] small h = (tt, ground arith, ground arith)
decimal_from-some n (c ∷ s) {r} small h = ground (
  arith,
  λ (p : n * 10 + (c - b'0') < u64_mod) (q : decimal_from (n * 10 + (c - b'0')) s ≡ some r).
      decimal_from-some (n * 10 + (c - b'0')) s p q,
)

some-decimal_from :
    (n : ℕ) (s : Bytes)
    → All IsDigit s
    → number_from n s < u64_mod
    → decimal_from n s ≡ some (number_from n s)
unfolding decimal_from add_digit
some-decimal_from n [] digits small = refl
some-decimal_from n (c ∷ s) (d, ds) small =
    let m = n * 10 + (c - b'0') in
    ground (arith, some-decimal_from m s ds small, le-number_from m s)

-- `decimal` returns a number exactly for one or more ASCII digits that spell a number below 2 ^ 64,
-- and returns the number that they spell: leading zeros are accepted, and nothing wraps around.
pub decimal-some_iff :
    (s : Bytes) (r : ℕ)
    → (decimal s ≡ some r)
      ↔ ((s ≢ []) × All IsDigit s × (r ≡ number_from 0 s) × (number_from 0 s < u64_mod))
unfolding decimal
decimal-some_iff [] r = (λ h. cc, λ h. absurd (h.0 refl))
decimal-some_iff (c ∷ s) r = (
  λ h.
      let (ds, e, small) = decimal_from-some 0 (c ∷ s) (omega arith) h in
      (λ e. cc, ds, e, omega arith),
  λ (ne, ds, e, small). rw e (some-decimal_from 0 (c ∷ s) ds small),
)

-- ===== src/Guard/Pax/Records.antt =====
-- A PAX record as it is written, and one round of `parse_pax_size` of src/guard.rs over it.
use etar.Prelude.{
  ℕ, suc, ◌+◌, ◌-◌, ◌≤◌, ◌<◌, ◌≡◌, ◌≢◌, refl, ap, ◌∙◌, true, false, ◌||◌, Option, none, some, List,
  [], ◌∷◌, ◌++◌, append_assoc, Bytes, codes, All, length, take, drop, arith, ltb, leb,
  length-append, take-append, drop-append, drop-drop, Result, ok, ◌>>=◌, ok_or,
}
use etar.Errors.{IoError}
use etar.Guard.Pax.{
  decimal, position, strip_prefix, ends_with_newline, size_of, parse_record, malformed_io,
}
use etar.Guard.Pax.Decimal.{IsDigit, decimal-some_iff}

-- A record: its length in decimal, a space, `key=value` and a newline. The length is that of the
-- whole record.
pub record PaxRecord : Type 0 where
  pub digits : Bytes
  pub payload : Bytes

abbrev pub record_bytes : PaxRecord → Bytes
record_bytes r = r.digits ++ (b' ' ∷ (r.payload ++ (b'\n' ∷ [])))

pub record IsWell (r : PaxRecord) : Type 0 where
  pub counted : decimal r.digits ≡ some (length (record_bytes r))
  pub some_payload : r.payload ≢ []

-- A record for `size` sets the size to its decimal value, or is malformed; others leave it.
abbrev pub apply_payload : Option ℕ → Option Bytes → Result (Option ℕ) IoError
apply_payload size none = ok size
apply_payload size (some value) = do n ← ok_or malformed_io (decimal value); ok (some n)

abbrev pub size_after : Option ℕ → List PaxRecord → Result (Option ℕ) IoError
size_after size [] = ok size
size_after size (r ∷ rs) = do
  size' ← apply_payload size (strip_prefix (codes "size=") r.payload)
  size_after size' rs

abbrev pub body_of : List PaxRecord → Bytes
body_of [] = []
body_of (r ∷ rs) = record_bytes r ++ body_of rs

position-digits :
    (ds rest : Bytes) → All IsDigit ds → position b' ' (ds ++ (b' ' ∷ rest)) ≡ some (length ds)
unfolding position
position-digits [] rest _ = refl
position-digits (d ∷ ds) rest (h, hs) = ground (arith, position-digits ds rest hs)

ends_with_newline-append : (xs : Bytes) → ends_with_newline (xs ++ (b'\n' ∷ [])) ≡ true
ends_with_newline-append [] = refl
ends_with_newline-append (x ∷ []) = refl
ends_with_newline-append (x ∷ y ∷ xs) = ends_with_newline-append (y ∷ xs)

with_newline : Option Bytes → Option Bytes
with_newline none = none
with_newline (some v) = some (v ++ (b'\n' ∷ []))

-- No prefix without a newline reaches the newline at the end.
strip_prefix-append :
    (p xs : Bytes)
    → All (λ c. c ≢ b'\n') p
    → strip_prefix p (xs ++ (b'\n' ∷ [])) ≡ with_newline (strip_prefix p xs)
unfolding strip_prefix with_newline
strip_prefix-append [] xs _ = refl
strip_prefix-append (c ∷ p) [] (h, hs) = ground arith
strip_prefix-append (c ∷ p) (x ∷ xs) (h, hs) = ground (arith, strip_prefix-append p xs hs)

size_of-with_newline :
    (size : Option ℕ) (o : Option Bytes) → size_of size (with_newline o) ≡ apply_payload size o
unfolding size_of with_newline
size_of-with_newline size none = refl
size_of-with_newline size (some v) =
    let e : length (v ++ (b'\n' ∷ [])) - 1 ≡ length v =
      omega (arith, length-append v (b'\n' ∷ [])) in
    rw (e, take-append v (b'\n' ∷ []))

length-pos : (xs : Bytes) → xs ≢ [] → 0 < length xs
length-pos [] h = absurd (h refl)
length-pos (x ∷ xs) h = omega arith

in_range :
    (total n size payload : ℕ)
    → 0 < payload
    → total ≡ n + suc (payload + 1)
    → total ≤ size
    → (leb total (n + 2) || ltb size total) ≡ false
in_range total n size payload some_ e fits = ground arith

-- A round, by what each of its steps finds.
round_lem :
    (body : Bytes) (size : Option ℕ) (space len : ℕ) (tail : Bytes)
    → position b' ' body ≡ some space
    → decimal (take space body) ≡ some len
    → (leb len (space + 2) || ltb (length body) len) ≡ false
    → take (len - (space + 1)) (drop (space + 1) body) ≡ tail
    → ends_with_newline tail ≡ true
    → parse_record body size
      ≡ (size_of size (strip_prefix (codes "size=") tail) >>= λ size'. ok (len, size'))
unfolding parse_record
round_lem body size space len tail p d f t e = rw (p, d, f, t, e)

-- One round reads the record in front, whatever follows it.
pub parse_record_lem :
    (r : PaxRecord) (rest : Bytes) (size : Option ℕ)
    → IsWell r
    → parse_record (record_bytes r ++ rest) size ≡ (
        apply_payload size (strip_prefix (codes "size=") r.payload) >>= λ size'.
        ok (length (record_bytes r), size'))
parse_record_lem r rest size well =
    let tail = r.payload ++ (b'\n' ∷ []) in
    let body = r.digits ++ (b' ' ∷ (tail ++ rest)) in
    let n = length r.digits in
    let total = length (record_bytes r) in
    let whole : record_bytes r ++ rest ≡ body = append_assoc r.digits (b' ' ∷ tail) rest in
    let (_, digits, _, _) = (decimal-some_iff r.digits total).0 well.counted in
    let total_eq : total ≡ n + suc (length tail) = length-append r.digits (b' ' ∷ tail) in
    let tail_eq : length tail ≡ length r.payload + 1 = length-append r.payload (b'\n' ∷ []) in
    let body_eq : length body ≡ n + suc (length tail + length rest) =
      length-append r.digits (b' ' ∷ (tail ++ rest))
      ∙ ap (λ k. n + suc k) (length-append tail rest) in
    let behind : drop (n + 1) body ≡ tail ++ rest =
      drop-drop n 1 body ∙ ap (λ x. drop 1 x) (drop-append r.digits (b' ' ∷ (tail ++ rest))) in
    let cut : take (total - (n + 1)) (drop (n + 1) body) ≡ tail =
      ap (λ x. take (total - (n + 1)) x) behind
      ∙ (ap (λ k. take k (tail ++ rest)) (omega arith) ∙ take-append tail rest) in
    rw whole (
      round_lem body size n total tail (position-digits r.digits (tail ++ rest) digits)
        (ap decimal (take-append r.digits (b' ' ∷ (tail ++ rest))) ∙ well.counted)
        (in_range total n (length body) (length r.payload) (length-pos r.payload well.some_payload)
          (omega arith) (omega arith))
        cut (ends_with_newline-append r.payload)
      ∙ (ap (λ x. size_of size x >>= λ size'. ok (total, size'))
            (strip_prefix-append (codes "size=") r.payload (omega arith))
          ∙ ap (λ x. x >>= λ size'. ok (total, size')) (size_of-with_newline size _)))

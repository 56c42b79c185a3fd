-- ===== src/Guard/Pax.antt =====
-- The readers of a PAX record body in src/guard.rs: `decimal` and `parse_pax_size`.
pub mod Decimal
pub mod Records
pub mod Loop
pub mod Whole
use etar.Prelude.{
  ℕ, zero, suc, ◌+◌, ◌-◌, ◌*◌, ◌≤◌, Bool, true, false, not, ◌&&◌, ◌||◌, Option, none, some, List,
  [], ◌∷◌, Bytes, codes, length, take, drop, ltb, leb, ◌==◌, if◌then◌else◌, Result, ok, err, ◌>>=◌,
  ◌>>◌, fail_if, ok_or,
}
use etar.Errors.{Error, malformed, IoError, custom, invalid_data}
use etar.Io.{u64_mod}

-- `malformed()`.
abbrev pub malformed_io : IoError
malformed_io = custom invalid_data malformed

abbrev pub checked_add : ℕ → ℕ → Option ℕ
checked_add a b = if ltb (a + b) u64_mod then some (a + b) else none

abbrev pub checked_mul : ℕ → ℕ → Option ℕ
checked_mul a b = if ltb (a * b) u64_mod then some (a * b) else none

abbrev pub and_then {ℓ} : {A B : Type ℓ} → Option A → (A → Option B) → Option B
and_then none f = none
and_then (some a) f = f a

abbrev pub is_ascii_digit : ℕ → Bool
is_ascii_digit c = leb b'0' c && leb c b'9'

-- The closure of `try_fold`.
unfoldable pub add_digit : ℕ → ℕ → Option ℕ
add_digit value byte =
    if is_ascii_digit byte
    then and_then (checked_mul value 10) (λ v. checked_add v (byte - b'0'))
    else none

unfoldable pub decimal_from : ℕ → Bytes → Option ℕ
decimal_from value [] = some value
decimal_from value (byte ∷ bytes) = and_then (add_digit value byte) (λ v. decimal_from v bytes)

unfoldable pub decimal : Bytes → Option ℕ
decimal [] = none
decimal (c ∷ s) = decimal_from 0 (c ∷ s)

-- `iter().position(|byte| *byte == b)`.
unfoldable pub position : ℕ → Bytes → Option ℕ
position b [] = none
position b (c ∷ s) = if c == b then some 0 else and_then (position b s) (λ i. some (suc i))

unfoldable pub strip_prefix : Bytes → Bytes → Option Bytes
strip_prefix [] s = some s
strip_prefix (p ∷ ps) [] = none
strip_prefix (p ∷ ps) (c ∷ s) = if c == p then strip_prefix ps s else none

abbrev pub ends_with_newline : Bytes → Bool
ends_with_newline [] = false
ends_with_newline (c ∷ []) = c == b'\n'
ends_with_newline (c ∷ d ∷ s) = ends_with_newline (d ∷ s)

-- The size after a record: its value, less the newline, if the record is for `size`.
unfoldable pub size_of : Option ℕ → Option Bytes → Result (Option ℕ) IoError
size_of size none = ok size
size_of size (some value) = do
  n ← ok_or malformed_io (decimal (take (length value - 1) value))
  ok (some n)

-- One round of the loop: the length of the record in front, and the size after it. `usize` holds
-- every `u64`.
unfoldable pub parse_record : Bytes → Option ℕ → Result (ℕ × Option ℕ) IoError
parse_record body size = do
  space ← ok_or malformed_io (position b' ' body)
  len ← ok_or malformed_io (decimal (take space body))
  fail_if (leb len (space + 2) || ltb (length body) len) malformed_io
  let record_bytes = take (len - (space + 1)) (drop (space + 1) body)
  fail_if (not (ends_with_newline record_bytes)) malformed_io
  size' ← size_of size (strip_prefix (codes "size=") record_bytes)
  ok (len, size')

-- The loop, with fuel; every round takes a byte at least.
unfoldable pub parse_records : ℕ → Bytes → Option ℕ → Result (Option ℕ) IoError
parse_records fuel [] size = ok size
parse_records zero (b ∷ body) size = err malformed_io
parse_records (suc fuel) (b ∷ body) size = do
  (len, size') ← parse_record (b ∷ body) size
  parse_records fuel (drop len (b ∷ body)) size'

unfoldable pub parse_pax_size : Bytes → Result (Option ℕ) IoError
parse_pax_size body = parse_records (length body) body none

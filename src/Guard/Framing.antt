-- ===== src/Guard/Framing.antt =====
-- The framing that `HeaderGuard` of src/guard.rs follows, described on whole members of an archive: no
-- buffers, no polls and no state but the size that a PAX body gives to the member behind it.
pub mod Inspecting
pub mod Phases
pub mod Reading
pub mod Sending
pub mod Body
pub mod Heading
pub mod Follows
pub mod Whole
pub mod Progress
pub mod Finishes
use etar.Prelude.{
  ℕ, ◌≡◌, ◌≢◌, Bool, true, false, not, ◌&&◌, Option, none, some, List, [], ◌∷◌, ◌++◌, Bytes, length,
  take, ltb, ◌==◌, if◌then◌else◌, Result, ok, err, ◌>>=◌, ◌>>◌, ok_or, fail_if, ◌⊎◌,
}
use etar.Errors.{IoError, custom, invalid_data, disallowed_entry_type, limit_exceeded}
use etar.Guard.{type_flag, is_allowed, is_extension, is_zero_block, round_up, unwrap_or}
use etar.Guard.Pax.{malformed_io, parse_pax_size}
use etar.Io.{Poll, pending, ready, Poller, ReadBuf, Shared}
use etar.Io.Contract.{is_error, Hands}

-- A header block, and the data behind it with their padding.
pub record Member : Type 0 where
  pub header : Bytes
  pub body : Bytes

abbrev pub bytes_of : List Member → Bytes
bytes_of [] = []
bytes_of (m ∷ ms) = m.header ++ (m.body ++ bytes_of ms)

module _ (header_size : Bytes → Option ℕ) (max : ℕ) where
  -- The length of the data behind a header, where `pax` is the size that a PAX body has given.
  unfoldable pub check_header : Option ℕ → Bytes → Result ℕ IoError
  check_header pax header = do
    fail_if (not (is_allowed (type_flag header))) (custom invalid_data disallowed_entry_type)
    raw_size ← ok_or malformed_io (header_size header)
    fail_if (is_extension (type_flag header) && ltb max raw_size)
        (custom invalid_data (limit_exceeded "max_metadata_bytes"))
    ok_or malformed_io
        (round_up (if is_extension (type_flag header) then raw_size else unwrap_or pax raw_size))

  -- The size for the next member: a PAX body gives it, the other extensions pass it on, and any other
  -- member uses it up.
  unfoldable pub pax_behind : Option ℕ → Member → Result (Option ℕ) IoError
  pax_behind pax m =
      if type_flag m.header == b'x'
      then parse_pax_size (take (unwrap_or (header_size m.header) 0) m.body)
      else if is_extension (type_flag m.header)
      then ok pax
      else ok none

  -- Members that are accepted one after another, with the size behind the last.
  abbrev pub Accepts : Option ℕ → List Member → Option ℕ → Type 0
  Accepts pax [] last = pax ≡ last
  Accepts pax (m ∷ ms) last =
      (length m.header ≡ 512)
      × (is_zero_block m.header ≡ false)
      × (check_header pax m.header ≡ ok (length m.body))
      × ((next : Option ℕ) × (pax_behind pax m ≡ ok next) × Accepts next ms last)

-- A reader that hands out `left` from its front, and never fails, as long as `P` holds of it and of
-- the shared counts; and it keeps `P`.
pub record Feeds {R : Type 0} (P : R → Shared → Type 0) (poll : Poller R) (left : R → Bytes) (s : R)
    (sh : Shared) (b : ReadBuf) : Type 0 where
  pub bytes : Bytes
  pub hands : Hands b (poll s sh b) bytes
  pub fed : left s ≡ bytes ++ left (poll s sh b).state
  pub no_error : is_error (poll s sh b).poll ≡ false
  pub holds : P (poll s sh b).state (poll s sh b).shared

abbrev pub IsFed : {R : Type 0} → (R → Shared → Type 0) → Poller R → (R → Bytes) → Type 0
IsFed {R} P poll left = (s : R) (sh : Shared) (b : ReadBuf) → P s sh → Feeds P poll left s sh b

-- What holds of a reader says nothing of the decoded count.
abbrev pub IsBlind : {R : Type 0} → (R → Shared → Type 0) → Type 0
IsBlind {R} P = (s : R) (sh : Shared) (n : ℕ) → P s sh → P s (record sh { decoded = n })

-- ===== src/Guard/Framing/Inspecting.antt =====
-- `HeaderGuard::inspect` of src/guard.rs against the description of a header on its own.
use etar.Prelude.{
  ℕ, ◌≡◌, ◌∙◌, false, Option, none, some, [], ◌++◌, Bytes, take, ◌==◌, if◌then◌else◌, Result, ok,
  ◌>>=◌, ◌⊎◌, inl, inr, arith, Bool-cases, Option-cases,
}
use etar.Errors.{IoError}
use etar.Guard.{
  HeaderGuard, inspect, inspect_size, open_pax, set_next_data, type_flag, is_extension,
  is_zero_block,
}
use etar.Guard.Framing.{check_header, pax_behind}
use etar.Guard.Pax.{parse_pax_size}

module _ {R : Type 0} (header_size : Bytes → Option ℕ) (g : HeaderGuard R) where
  abbrev checked : Result ℕ IoError
  checked = check_header header_size g.max_metadata_bytes g.pax_size g.header

  -- It accepts what the description accepts, and refuses with the same error.
  pub inspect-checked :
      is_zero_block g.header ≡ false → (inspect header_size g).1 ≡ (checked >>= λ _. ok tt)
  unfolding inspect inspect_size open_pax set_next_data check_header
  inspect-checked nonzero = ground (arith, nonzero)

  pub inspect-next_data :
      {n : ℕ}
      → is_zero_block g.header ≡ false
      → checked ≡ ok n
      → (inspect header_size g).0.next_data ≡ n
  unfolding inspect inspect_size open_pax set_next_data check_header
  inspect-next_data nonzero h = ground (arith, nonzero, h)

  inspect-pax_body :
      (raw : ℕ) {n : ℕ}
      → is_zero_block g.header ≡ false
      → header_size g.header ≡ some raw
      → checked ≡ ok n
      → ((inspect header_size g).0.pax_body
          ≡ (if type_flag g.header == b'x' then some [] else g.pax_body))
        × ((inspect header_size g).0.pax_remaining
            ≡ (if type_flag g.header == b'x' then raw else g.pax_remaining))
        × ((inspect header_size g).0.pax_size
            ≡ (if is_extension (type_flag g.header) then g.pax_size else none))
  unfolding inspect inspect_size open_pax set_next_data check_header
  inspect-pax_body raw nonzero size h = (
    ground (arith, nonzero, size, h),
    ground (arith, nonzero, size, h),
    ground (arith, nonzero, size, h),
  )

  checked-size : {n : ℕ} → checked ≡ ok n → (raw : ℕ) × (header_size g.header ≡ some raw)
  unfolding check_header
  checked-size h = elim (Option-cases (header_size g.header)) [
    | inl e ↦ absurd (ground (arith, h, e))
    | inr (raw, e) ↦ (raw, e)
  ]

  pub inspect-frame :
      ((inspect header_size g).0.max_metadata_bytes ≡ g.max_metadata_bytes)
      × (is_zero_block g.header ≡ false → (inspect header_size g).0.next_trailer ≡ g.next_trailer)
  unfolding inspect inspect_size open_pax set_next_data
  inspect-frame = (ground arith, λ nonzero. ground (arith, nonzero))

-- What is still to come of a PAX body, in the data `left` that have not been read: nothing, and the
-- size is known; or the end of a body that gives it.
abbrev pub PaxPending : {R : Type 0} → HeaderGuard R → Bytes → Option ℕ → Type 0
PaxPending g left next =
    ((g.pax_body ≡ none) × (g.pax_size ≡ next))
    ⊎ ((body : Bytes) × (g.pax_body ≡ some body)
        × (parse_pax_size (body ++ take g.pax_remaining left) ≡ ok next))

pub inspect-PaxPending :
    {R : Type 0} (header_size : Bytes → Option ℕ) (g : HeaderGuard R) (body : Bytes) {n : ℕ}
    {next : Option ℕ}
    → is_zero_block g.header ≡ false
    → g.pax_body ≡ none
    → check_header header_size g.max_metadata_bytes g.pax_size g.header ≡ ok n
    → pax_behind header_size g.max_metadata_bytes g.pax_size
        (record { header = g.header; body = body })
      ≡ ok next
    → PaxPending (inspect header_size g).0 body next
unfolding pax_behind
inspect-PaxPending header_size g body nonzero no_body h behind =
    let (raw, size) = checked-size header_size g h in
    let (b, r, s) = inspect-pax_body header_size g raw nonzero size h in
    elim (Bool-cases (type_flag g.header == b'x')) [
      | inl x ↦ inr ([], b ∙ rw x, rw (r, x) (rw (x, size) at behind))
      | inr x ↦ inl (b ∙ rw x no_body, s ∙ ground (arith, x, behind))
    ]

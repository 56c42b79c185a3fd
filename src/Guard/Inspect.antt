-- ===== src/Guard/Inspect.antt =====
-- The headers that `HeaderGuard::inspect` of src/guard.rs lets through.
use etar.Prelude.{
  ℕ, ◌+◌, ◌%◌, ◌≤◌, ◌<◌, ◌≡◌, refl, true, false, Option, none, some, Bytes, ltb, Option-cases,
  Bool-cases, inl, inr, ◌⊎◌, if◌then◌else◌, ok, arith,
}
use etar.Guard.{
  HeaderGuard, inspect, inspect_size, set_next_data, is_extension, is_allowed, is_zero_block,
  type_flag, round_up, open_pax, unwrap_or,
}

-- The length of an entry's data, by the size in its header and by what a PAX body said before it.
abbrev pub data_size : {R : Type 0} → HeaderGuard R → ℕ → ℕ
data_size g raw_size =
    if is_extension (type_flag g.header) then raw_size else unwrap_or g.pax_size raw_size

-- A header that is let through: its type, its size, and where its data end.
pub record LetsThrough {R : Type 0} (g g' : HeaderGuard R) (raw_size : ℕ) : Type 0 where
  pub allowed : is_allowed (type_flag g.header) ≡ true
  pub capped : (is_extension (type_flag g.header) ≡ false) ⊎ (raw_size ≤ g.max_metadata_bytes)
  pub whole_blocks : g'.next_data % 512 ≡ 0
  pub covers : data_size g raw_size ≤ g'.next_data
  pub tight : g'.next_data < data_size g raw_size + 512

set_next_data-ok :
    {R : Type 0} (g : HeaderGuard R) (size : ℕ)
    → (set_next_data g (round_up size)).1 ≡ ok tt
    → ((set_next_data g (round_up size)).0.next_data % 512 ≡ 0)
      × (size ≤ (set_next_data g (round_up size)).0.next_data)
      × ((set_next_data g (round_up size)).0.next_data < size + 512)
unfolding set_next_data
set_next_data-ok g size h = (ground arith, ground arith, ground arith)

-- The part of `inspect_size` behind the limit, by the type of the header.
module _ {R : Type 0} (g : HeaderGuard R) (kind raw_size : ℕ) where
  abbrev ext_size : ℕ
  ext_size =
      if is_extension kind then raw_size else unwrap_or (open_pax g kind raw_size).pax_size raw_size

  inspect_size-next_data :
      (inspect_size g kind (some raw_size)).1 ≡ ok tt
      → ((is_extension kind ≡ false) ⊎ (raw_size ≤ g.max_metadata_bytes))
        × ((inspect_size g kind (some raw_size)).0.next_data % 512 ≡ 0)
        × (ext_size ≤ (inspect_size g kind (some raw_size)).0.next_data)
        × ((inspect_size g kind (some raw_size)).0.next_data < ext_size + 512)
  unfolding inspect_size
  inspect_size-next_data h =
      let opened = open_pax g kind raw_size in
      elim (Bool-cases (is_extension kind)) [
        | inl e ↦ elim (Bool-cases (ltb g.max_metadata_bytes raw_size)) [
          | inl over ↦ let h' = rw (e, over) at h in cc
          | inr fits ↦
              rw (e, fits)
                (let (a, b, c) = set_next_data-ok opened raw_size (rw (e, fits) at h) in
                  (inr (ground arith), a, b, c))
        ]
        | inr e ↦ rw e (
            let (a, b, c) =
              set_next_data-ok (record opened { pax_size = none })
                (unwrap_or opened.pax_size raw_size) (rw e at h) in
            (inl refl, a, b, c))
      ]

open_pax-pax_size :
    {R : Type 0} (g : HeaderGuard R) (kind raw_size : ℕ)
    → (open_pax g kind raw_size).pax_size ≡ g.pax_size
unfolding open_pax
open_pax-pax_size g kind raw_size = ground arith

no_size : {R : Type 0} (g : HeaderGuard R) (kind : ℕ) → (inspect_size g kind none).1 ≡ ok tt → ⊥
unfolding inspect_size
no_size g kind h = cc

-- A header block that is not all zeros and that `inspect` accepts is of an allowed type; its size
-- can be read, and is at most `max_metadata_bytes` if it is an extension; and the data that the guard
-- will pass over are whole 512-byte blocks, as few as hold the entry's size, which is the header's or,
-- for an entry behind a PAX body with a size, that one.
pub inspect-LetsThrough :
    {R : Type 0} (header_size : Bytes → Option ℕ) (g : HeaderGuard R)
    → is_zero_block g.header ≡ false
    → (inspect header_size g).1 ≡ ok tt
    → (raw_size : ℕ) × (header_size g.header ≡ some raw_size)
      × LetsThrough g (inspect header_size g).0 raw_size
unfolding inspect
inspect-LetsThrough header_size g nonzero h =
    let kind = type_flag g.header in
    elim (Bool-cases (is_allowed kind)) [
      | inr bad ↦ let h' = rw (nonzero, bad) at h in cc
      | inl good ↦
          rw (nonzero, good)
            (let h' = rw (nonzero, good) at h in
              elim (Option-cases (header_size g.header)) [
                | inl e ↦ absurd (no_size g kind (rw e at h'))
                | inr (raw_size, e) ↦ rw e (
                    let (a, b, c, d) = inspect_size-next_data g kind raw_size (rw e at h') in
                    (
                      raw_size,
                      refl,
                      record {
                        allowed = good;
                        capped = a;
                        whole_blocks = b;
                        covers = rw (open_pax-pax_size g kind raw_size) at c;
                        tight = rw (open_pax-pax_size g kind raw_size) at d;
                      },
                    ))
              ])
    ]

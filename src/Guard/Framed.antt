-- ===== src/Guard/Framed.antt =====
-- The header that `HeaderGuard` of src/guard.rs holds, and what leaves it alone.
use native.Mathlib.Nat.{add-zero}
use etar.Prelude.{
  ℕ, ◌+◌, ◌≤◌, ◌<◌, ◌≡◌, sym, ap, ◌∙◌, true, false, Option, [], ◌++◌, Bytes, length, take, drop,
  arith, length-append, length-take, length-drop, take_append_add, take-append-drop, take-append,
}
use etar.Io.{Turn}
use etar.Io.Contract.{is_ready_ok}
use etar.Guard.{
  HeaderGuard, inspect, inspect_size, open_pax, set_next_data, close_pax, take_pax, end_data,
  feed_pax,
}
use etar.Guard.Reading.{overwrite}

-- What `inspect` and the PAX bookkeeping leave alone.
pub record SameFrame {R : Type 0} (g g' : HeaderGuard R) : Type 0 where
  pub inner : g'.inner ≡ g.inner
  pub header : g'.header ≡ g.header
  pub filled : g'.filled ≡ g.filled
  pub emitted : g'.emitted ≡ g.emitted
  pub data_remaining : g'.data_remaining ≡ g.data_remaining
  pub trailer : g'.trailer ≡ g.trailer

module _ {R : Type 0} (g : HeaderGuard R) where
  pub end_data-SameFrame : SameFrame g (end_data g).0
  unfolding end_data take_pax close_pax
  end_data-SameFrame = ground arith

  pub inspect-SameFrame : (header_size : Bytes → Option ℕ) → SameFrame g (inspect header_size g).0
  unfolding inspect inspect_size open_pax set_next_data
  inspect-SameFrame header_size = ground arith

  pub feed_pax-SameFrame : (bytes : Bytes) (o : Option Bytes) → SameFrame g (feed_pax g bytes o)
  unfolding feed_pax
  feed_pax-SameFrame bytes o = ground arith

-- The header bytes that have been read and not handed out.
abbrev pub held : {R : Type 0} → HeaderGuard R → Bytes
held g = drop g.emitted (take g.filled g.header)

pub record IsShaped {R : Type 0} (g : HeaderGuard R) : Type 0 where
  pub size : length g.header ≡ 512
  pub filled_le : g.filled ≤ 512
  pub emitted_lt : g.emitted < 512
  pub started : 0 < g.emitted → g.filled ≡ 512
  pub in_data : 0 < g.data_remaining → g.filled ≡ 0
  pub in_trailer : g.trailer ≡ true → g.filled ≡ 0

-- While it is in a header.
pub record InHeader {R : Type 0} (g : HeaderGuard R) : Type 0 where
  pub shaped : IsShaped g
  pub no_data : g.data_remaining ≡ 0
  pub no_trailer : g.trailer ≡ false

pub overwrite-length :
    (h : Bytes) (at : ℕ) (bs : Bytes)
    → length h ≡ 512
    → at + length bs ≤ 512
    → length (overwrite h at bs) ≡ 512
overwrite-length h at bs size fits = omega (
  arith,
  length-append (take at h) (bs ++ drop (at + length bs) h),
  length-append bs (drop (at + length bs) h),
  length-take at h,
  length-drop (at + length bs) h,
)

pub take-overwrite :
    (h : Bytes) (at : ℕ) (bs : Bytes)
    → at ≤ length h
    → take (at + length bs) (overwrite h at bs) ≡ take at h ++ bs
take-overwrite h at bs fits =
    let e : length (take at h) ≡ at = omega (arith, length-take at h) in
    let rest = drop (at + length bs) h in
    ap (λ k. take (k + length bs) (overwrite h at bs)) (sym e)
    ∙ (take_append_add (length bs) (take at h) (bs ++ rest)
        ∙ ap (λ t. take at h ++ t) (take-append bs rest))

pub overwrite_nil : (h : Bytes) (at : ℕ) → overwrite h at [] ≡ h
overwrite_nil h at = rw add-zero (take-append-drop at h)

-- A poll with an empty buffer, on the buffer that comes back.
pub record Fresh {R : Type 0} (log : R → Bytes) (s : R) (n : ℕ) (t : Turn R) : Type 0 where
  pub fits : length t.buf.filled ≤ n
  pub logged : log t.state ≡ log s ++ t.buf.filled
  pub quiet : is_ready_ok t.poll ≡ false → t.buf.filled ≡ []

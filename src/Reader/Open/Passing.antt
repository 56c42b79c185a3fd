-- ===== src/Reader/Open/Passing.antt =====
-- The layers that `Reader::open` of src/reader.rs puts around a decoder, over an archive within the
-- limits.
use etar.Prelude.{
  ℕ, ◌+◌, ◌-◌, ◌*◌, ◌%◌, ◌≤◌, ◌<◌, ◌≡◌, refl, sym, ap, ◌∙◌, subst, true, false, ◌&&◌, Option, none,
  List, ◌++◌, Bytes, length, ltb, if◌then◌else◌, ◌⊎◌, inl, inr, arith, Bool-cases, length-append,
  All,
}
use etar.Settings.{ratio_floor_bytes}
use etar.Limits.{SecurityLimits}
use etar.Io.{ReadBuf, Shared, Turn, Poller, u64_mod, until_error}
use etar.Io.Contract.{Hands, is_error, KeepsDecoded, filled-difference}
use etar.Open.Cap.{Cap, new_cap, breach, settle, poll_cap}
use etar.Open.Cap.Outcome.{poll_cap_alive}
use etar.Guard.{is_zero_block}
use etar.Guard.Reading.{poll_guard}
use etar.Guard.Framing.{IsBlind, Member, bytes_of, Accepts, IsFed}
use etar.Guard.Framing.Progress.{IsEager, Advances}
use etar.Guard.Framing.Finishes.{until_error_complete}
use etar.Reader.Open.{layers}

-- The ratio that the cap allows, for `out` decoded bytes.
abbrev pub InRatio : ℕ → ℕ → ℕ → Type 0
InRatio ratio encoded out = (out ≤ ratio_floor_bytes) ⊎ (encoded ≡ 0) ⊎ (out ≤ encoded * ratio)

-- A decoder that holds `total` bytes in all keeps to the ratio while it has `left` to hand out.
abbrev pub IsFrugal : {D : Type 0} → (D → Shared → Type 0) → (D → Bytes) → ℕ → ℕ → Type 0
IsFrugal {D} P left total ratio =
    (d : D) (sh : Shared) → P d sh → InRatio ratio sh.encoded (total - length (left d))

ratio-passes :
    (product encoded out max : ℕ)
    → out ≤ max
    → max < u64_mod
    → (out ≤ ratio_floor_bytes) ⊎ (encoded ≡ 0) ⊎ (out ≤ product)
    → (ltb ratio_floor_bytes out
        && ltb 0 encoded
        && ltb (if ltb product u64_mod then product else u64_mod - 1) out)
      ≡ false
ratio-passes product encoded out max fits small (inl h) = ground (arith, fits, small, h)
ratio-passes product encoded out max fits small (inr (inl h)) = ground (arith, fits, small, h)
ratio-passes product encoded out max fits small (inr (inr h)) = ground (arith, fits, small, h)

breach-passes :
    (sh : Shared) (max ratio read : ℕ)
    → sh.decoded + read ≤ max
    → max < u64_mod
    → InRatio ratio sh.encoded (sh.decoded + read)
    → breach sh max ratio read ≡ (none, record sh { decoded = sh.decoded + read })
unfolding breach
breach-passes sh max ratio read fits small ratio_ =
    let same : (sh.decoded + read) % u64_mod ≡ sh.decoded + read = omega (arith, fits, small) in
    let below : ltb max (sh.decoded + read) ≡ false = ground (arith, fits) in
    let fine =
      ratio-passes (sh.encoded * ratio) sh.encoded (sh.decoded + read) max fits small ratio_ in
    rw (same, below, fine)

module _ {D : Type 0} {P : D → Shared → Type 0} (poll : Poller D) (left : D → Bytes)
    (fed : IsFed P poll left) (keeps : KeepsDecoded poll) (blind : IsBlind P) (total max ratio : ℕ)
    (within : total ≤ max) (small : max < u64_mod) (frugal : IsFrugal P left total ratio) where
  -- A cap that has charged what the decoder has handed out so far.
  record Charged (c : Cap D) (sh : Shared) : Type 0 where
    pub alive : c.failed ≡ false
    pub same_max : c.max ≡ max
    pub same_ratio : c.max_ratio ≡ ratio
    pub counted : sh.decoded + length (left c.inner) ≡ total
    pub inner : P c.inner sh

  -- The turn of a cap that passes on a turn `t`.
  abbrev passed : Cap D → ReadBuf → Turn D → Turn (Cap D)
  passed c b t = record {
    state = record c { inner = t.state };
    shared = record t.shared {
      decoded = t.shared.decoded + (length t.buf.filled - length b.filled);
    };
    buf = t.buf;
    poll = t.poll;
  }

  poll_cap-passes :
      (c : Cap D) (sh : Shared) (b : ReadBuf)
      → Charged c sh
      → poll_cap poll c sh b ≡ passed c b (poll c.inner sh b)
  unfolding settle
  poll_cap-passes c sh b p =
      let t = poll c.inner sh b in
      let f = fed c.inner sh b p.inner in
      let read = length t.buf.filled - length b.filled in
      let handed : read ≡ length f.bytes = filled-difference f.hands in
      let kept : t.shared.decoded ≡ sh.decoded = keeps c.inner sh b in
      let split : length (left c.inner) ≡ length f.bytes + length (left t.state) =
        ap length f.fed ∙ length-append f.bytes (left t.state) in
      let out : t.shared.decoded + read ≡ total - length (left t.state) =
        omega (arith, p.counted, handed, kept, split) in
      let fits : t.shared.decoded + read ≤ max = omega (arith, out) in
      let passes =
        breach-passes t.shared c.max c.max_ratio read (omega (arith, fits, p.same_max))
          (omega (arith, small, p.same_max))
          (subst (λ k. InRatio k t.shared.encoded (t.shared.decoded + read)) (sym p.same_ratio)
            (subst (InRatio ratio t.shared.encoded) (sym out) (frugal t.state t.shared f.holds))) in
      poll_cap_alive poll c sh b p.alive ∙ elim (Bool-cases (ltb 0 read)) [
        | inl r ↦ rw (r, passes) refl
        | inr r ↦
            let none_ : t.shared.decoded ≡ t.shared.decoded + read = ground arith in
            rw r (λ i. record {
              state = record c { inner = t.state };
              shared = record t.shared { decoded = none_ i };
              buf = t.buf;
              poll = t.poll;
            })
      ]

  poll_cap-IsFed : IsFed Charged (poll_cap poll) (λ c. left c.inner)
  poll_cap-IsFed c sh b p =
      let t = poll c.inner sh b in
      let f = fed c.inner sh b p.inner in
      let same = sym (poll_cap-passes c sh b p) in
      let read = length t.buf.filled - length b.filled in
      record {
        bytes = f.bytes;
        hands =
            subst (λ t'. Hands b t' f.bytes) same
              (record {
                filled = f.hands.filled;
                same_size = f.hands.same_size;
                fits = f.hands.fits;
                quiet = f.hands.quiet;
              });
        fed = f.fed ∙ ap (λ t'. f.bytes ++ left t'.state.inner) same;
        no_error = ap (λ t'. is_error t'.poll) (sym same) ∙ f.no_error;
        holds =
            subst (λ t'. Charged t'.state t'.shared) same
              (record {
                alive = p.alive;
                same_max = p.same_max;
                same_ratio = p.same_ratio;
                counted = omega (
                  arith,
                  p.counted,
                  filled-difference f.hands,
                  keeps c.inner sh b,
                  ap length f.fed,
                  length-append f.bytes (left t.state),
                );
                inner = blind t.state t.shared (t.shared.decoded + read) f.holds;
              });
      }

  poll_cap-IsEager : IsEager P poll left → IsEager Charged (poll_cap poll) (λ c. left c.inner)
  poll_cap-IsEager eager c sh b p room more =
      let a = eager c.inner sh b p.inner room more in
      subst (Advances b) (sym (poll_cap-passes c sh b p))
        (record { is_ready = a.is_ready; some_bytes = a.some_bytes })

-- A caller polls the layers of a new reader, as many times as the decoder has bytes or more, each time
-- with a buffer that has room. The decoder neither fails nor waits, leaves the decoded count alone and
-- holds an archive: members that the description accepts under `max_metadata_bytes`, a zero block, and
-- any bytes; in all, no more than `max_total_bytes`, and never more than `max_compression_ratio` times
-- the encoded bytes once it is over the floor. Then no poll fails, and the layers have handed out the
-- whole archive. What is assumed of the decoder may rest on `P`, which holds at first and which it
-- keeps.
pub until_error-layers :
    {D : Type 0} {P : D → Shared → Type 0} (poll : Poller D) (left : D → Bytes)
    → IsFed P poll left
    → IsEager P poll left
    → KeepsDecoded poll
    → IsBlind P
    → (header_size : Bytes → Option ℕ) (limits : SecurityLimits) (ms : List Member)
      (last : Option ℕ) (end tail : Bytes) (d : D) (sh : Shared) (ns : List ℕ)
    → Accepts header_size limits.max_metadata_bytes none ms last
    → is_zero_block end ≡ true
    → length end ≡ 512
    → left d ≡ bytes_of ms ++ (end ++ tail)
    → length (left d) ≤ limits.max_total_bytes
    → limits.max_total_bytes < u64_mod
    → IsFrugal P left (length (left d)) limits.max_compression_ratio
    → P d sh
    → sh.decoded ≡ 0
    → All (λ n. 0 < n) ns
    → length (left d) ≤ length ns
    → (let r = until_error (poll_guard (poll_cap poll) header_size) (layers limits d) sh ns in
        (r.error ≡ none) × (r.bytes ≡ left d))
unfolding layers
until_error-layers poll left fed eager keeps blind header_size limits ms last end tail d sh ns
      accepts zero_end size holds within small frugal p fresh rooms enough =
    let total = length (left d) in
    let max = limits.max_total_bytes in
    let ratio = limits.max_compression_ratio in
    until_error_complete (poll_cap poll) (λ c. left c.inner)
      (poll_cap-IsFed poll left fed keeps blind total max ratio within small frugal)
      (poll_cap-IsEager poll left fed keeps blind total max ratio within small frugal eager)
      header_size limits.max_metadata_bytes ms last end tail (new_cap d max ratio) sh ns accepts
      zero_end size holds
      (record {
        alive = refl;
        same_max = refl;
        same_ratio = refl;
        counted = omega (arith, fresh);
        inner = p;
      })
      rooms enough

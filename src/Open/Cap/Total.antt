-- ===== src/Open/Cap/Total.antt =====
-- The bytes that `Cap` of src/open.rs hands out, over sequences of polls.
use etar.Prelude.{
  ℕ, ◌+◌, ◌-◌, ◌≤◌, ◌<◌, ◌≡◌, refl, ◌∙◌, true, false, List, [], ◌∷◌, Bytes, String, Option, none,
  some, length, ltb, length-append, append-nil, arith, All, inl, inr, Bool-cases,
}
use etar.Errors.{cap_error}
use etar.Io.{ReadBuf, Shared, Turn, Poller, u64_mod, drain, empty_buf}
use etar.Io.Contract.{Hands, IsLawful, KeepsDecoded, filled-difference, stopped-Hands, cut-Hands}
use etar.Open.Cap.{Cap, new_cap, breach, settle, poll_cap}

-- What the end of a poll hands out of the bytes `bs` that came in.
abbrev kept : Option String → Bytes → Bytes
kept none bs = bs
kept (some reason) bs = []

settle-Hands :
    {R : Type 0} (c : Cap R) {b : ReadBuf} {t : Turn R} (sh : Shared) (o : Option String)
    {bs : Bytes}
    → Hands b t bs
    → Hands b (settle c (length b.filled) t sh o) (kept o bs)
unfolding settle
settle-Hands c sh none h = record {
  filled = h.filled;
  same_size = h.same_size;
  fits = h.fits;
  quiet = h.quiet;
}
settle-Hands c sh (some reason) h =
    cut-Hands h (record c { inner = _; failed = true }) sh (cap_error reason)

module _ {R : Type 0} (poll : Poller R) where
  pub poll_cap-IsLawful : IsLawful poll → IsLawful (poll_cap poll)
  unfolding poll_cap
  poll_cap-IsLawful lawful c sh b =
      let t = poll c.inner sh b in
      let (bs, h) = lawful c.inner sh b in
      let read = length t.buf.filled - length b.filled in
      let (reason, charged) = breach t.shared c.max c.max_ratio read in
      elim (Bool-cases c.failed) [
        | inl e ↦ simp e ([], stopped-Hands c sh b (cap_error "aborted"))
        | inr e ↦ simp e (elim (Bool-cases (ltb 0 read)) [
          | inl r ↦ rw r (kept reason bs, settle-Hands c charged reason h)
          | inr r ↦ rw r (
            bs,
            record { filled = h.filled; same_size = h.same_size; fits = h.fits; quiet = h.quiet },
          )
        ])
      ]

  -- One poll with an empty buffer: what it hands out fits under the cap, and is what the count grew
  -- by as long as the cap has not failed.
  poll_cap-charges :
      IsLawful poll
      → KeepsDecoded poll
      → (c : Cap R) (sh : Shared) (n : ℕ) → sh.decoded ≤ c.max
      → c.max + n < u64_mod
      → (sh.decoded + length (poll_cap poll c sh (empty_buf n)).buf.filled ≤ c.max)
        × ((poll_cap poll c sh (empty_buf n)).state.failed ≡ false
            → (poll_cap poll c sh (empty_buf n)).shared.decoded
              ≡ sh.decoded + length (poll_cap poll c sh (empty_buf n)).buf.filled)
        × ((poll_cap poll c sh (empty_buf n)).state.max ≡ c.max)
  unfolding poll_cap breach
  poll_cap-charges lawful keeps c sh n small room =
      let (bs, h) = lawful c.inner sh (empty_buf n) in
      let k = keeps c.inner sh (empty_buf n) in
      let f = h.fits in
      let d = filled-difference h in
      (ground (arith, k, f, d), ground (arith, k, f, d), ground (arith, k, f, d))

  drain-poll_cap_failed :
      (c : Cap R) (sh : Shared) (ns : List ℕ)
      → c.failed ≡ true
      → (drain (poll_cap poll) c sh ns).bytes ≡ []
  unfolding drain poll_cap
  drain-poll_cap_failed c sh [] h = refl
  drain-poll_cap_failed c sh (n ∷ ns) h = simp h (drain-poll_cap_failed c sh ns h)

  drain-poll_cap-le :
      IsLawful poll
      → KeepsDecoded poll
      → (max : ℕ) (c : Cap R) (sh : Shared) (ns : List ℕ) → c.max ≡ max
      → All (λ n. max + n < u64_mod) ns
      → sh.decoded ≤ max
      → sh.decoded + length (drain (poll_cap poll) c sh ns).bytes ≤ max
  unfolding drain
  drain-poll_cap-le lawful keeps max c sh [] same room small = omega arith
  drain-poll_cap-le lawful keeps max c sh (n ∷ ns) same (room, rooms) small =
      let t = poll_cap poll c sh (empty_buf n) in
      let rest = drain (poll_cap poll) t.state t.shared ns in
      let (fits, counted, kept_max) =
        poll_cap-charges lawful keeps c sh n (omega arith) (omega arith) in
      let split = length-append t.buf.filled rest.bytes in
      elim (Bool-cases t.state.failed) [
        | inl e ↦ rw (drain-poll_cap_failed t.state t.shared ns e, append-nil) (omega arith)
        | inr e ↦ omega (
          arith,
          split,
          counted e,
          drain-poll_cap-le lawful keeps max t.state t.shared ns (kept_max ∙ same) rooms
              (omega (arith, counted e)),
        )
      ]

  -- Over any sequence of polls, each with an empty buffer, a new cap on a fresh count hands out at
  -- most `max` bytes in all, whatever the decoder under it yields and whether or not polls fail. The
  -- decoder keeps the contract of `AsyncRead` and leaves the count alone, and no buffer is so large
  -- that the 64-bit count could wrap.
  pub drain-poll_cap-le-max :
      IsLawful poll
      → KeepsDecoded poll
      → (inner : R) (max max_ratio : ℕ) (sh : Shared) (ns : List ℕ) → sh.decoded ≡ 0
      → All (λ n. max + n < u64_mod) ns
      → length (drain (poll_cap poll) (new_cap inner max max_ratio) sh ns).bytes ≤ max
  drain-poll_cap-le-max lawful keeps inner max max_ratio sh ns fresh room = omega (
    arith,
    drain-poll_cap-le lawful keeps max (new_cap inner max max_ratio) sh ns refl room (omega arith),
  )

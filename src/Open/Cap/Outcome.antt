-- ===== src/Open/Cap/Outcome.antt =====
-- The two ends of a poll of `Cap` of src/open.rs.
use etar.Prelude.{
  ℕ, ◌-◌, ◌*◌, ◌≤◌, ◌≡◌, refl, true, false, Bytes, String, Option, none, some, length, take, ltb,
  err, take-append, arith, if◌then◌else◌, ◌⊎◌, inl, inr, Bool-cases,
}
use etar.Settings.{ratio_floor_bytes}
use etar.Errors.{cap_error}
use etar.Io.{ready, ReadBuf, Shared, Turn, Poller}
use etar.Io.Contract.{Hands, IsLawful}
use etar.Open.Cap.{Cap, breach, settle, poll_cap}

-- The decoded count after a charge that broke no cap.
pub record IsWithin (sh : Shared) (max max_ratio : ℕ) : Type 0 where
  pub total : sh.decoded ≤ max
  pub ratio :
      (sh.decoded ≤ ratio_floor_bytes) ⊎ (sh.encoded ≡ 0) ⊎ (sh.decoded ≤ sh.encoded * max_ratio)

pub breach-none :
    (sh : Shared) (max max_ratio read : ℕ)
    → (breach sh max max_ratio read).0 ≡ none
    → IsWithin (breach sh max max_ratio read).1 max max_ratio
unfolding breach
breach-none sh max max_ratio read h = ground arith

-- The turn `t'` of a cap `c` passes on the reader's turn `t`; what came in broke no cap.
pub record PassesOn {R : Type 0} (c : Cap R) (b : ReadBuf) (t : Turn R) (t' : Turn (Cap R))
    : Type 0 where
  pub same_buf : t'.buf ≡ t.buf
  pub same_poll : t'.poll ≡ t.poll
  pub goes_on : t'.state.failed ≡ false
  pub within : (length t'.buf.filled ≤ length b.filled) ⊎ IsWithin t'.shared c.max c.max_ratio

-- It hands out nothing, fails for good and returns the error of a byte cap.
pub record CutsOff {R : Type 0} (b : ReadBuf) (t' : Turn (Cap R)) : Type 0 where
  pub same_buf : t'.buf ≡ b
  pub stops : t'.state.failed ≡ true
  pub reason : String
  pub reported : t'.poll ≡ ready (err (cap_error reason))

settle_outcome :
    {R : Type 0} (c : Cap R) {b : ReadBuf} {t : Turn R} (sh : Shared) (o : Option String)
    {bs : Bytes}
    → c.failed ≡ false
    → Hands b t bs
    → (o ≡ none → (length t.buf.filled ≤ length b.filled) ⊎ IsWithin sh c.max c.max_ratio)
    → PassesOn c b t (settle c (length b.filled) t sh o)
      ⊎ CutsOff b (settle c (length b.filled) t sh o)
unfolding settle
settle_outcome c sh none alive h w =
    inl (record { same_buf = refl; same_poll = refl; goes_on = alive; within = w refl })
settle_outcome c {b} {t} sh (some reason) {bs} alive h w =
    let cut : take (length b.filled) t.buf.filled ≡ b.filled =
      rw (h.filled) (take-append b.filled bs) in
    inr (record {
      same_buf = λ i. record { filled = cut i; capacity = h.same_size i };
      stops = refl;
      reason = reason;
      reported = refl;
    })

-- A poll of a cap that has not failed.
abbrev pub poll_alive : {R : Type 0} → Poller R → Poller (Cap R)
poll_alive poll c sh b =
    let t = poll c.inner sh b in
    let read = length t.buf.filled - length b.filled in
    let (reason, charged) = breach t.shared c.max c.max_ratio read in
    if ltb 0 read
    then settle c (length b.filled) t charged reason
    else settle c (length b.filled) t t.shared none

pub poll_cap_alive :
    {R : Type 0} (poll : Poller R) (c : Cap R) (sh : Shared) (b : ReadBuf)
    → c.failed ≡ false
    → poll_cap poll c sh b ≡ poll_alive poll c sh b
unfolding poll_cap
poll_cap_alive poll c sh b alive = rw alive

-- A poll of a cap that has not failed either passes on the reader's turn, and then, if bytes came,
-- the decoded count is at most `max` and, above the floor and with some input read, at most
-- `max_ratio` times the input; or it hands out nothing, leaves the caller's buffer as it was, fails
-- for good and returns the error of a byte cap.
pub poll_cap-outcome :
    {R : Type 0} (poll : Poller R)
    → IsLawful poll
    → (c : Cap R) (sh : Shared) (b : ReadBuf) → c.failed ≡ false
    → PassesOn c b (poll c.inner sh b) (poll_cap poll c sh b) ⊎ CutsOff b (poll_cap poll c sh b)
poll_cap-outcome poll lawful c sh b alive =
    let t = poll c.inner sh b in
    let read = length t.buf.filled - length b.filled in
    let (bs, h) = lawful c.inner sh b in
    let (reason, charged) = breach t.shared c.max c.max_ratio read in
    rw (poll_cap_alive poll c sh b alive) (elim (Bool-cases (ltb 0 read)) [
      | inl r ↦ rw r (
          settle_outcome c charged reason alive h
            (λ e. inr (breach-none t.shared c.max c.max_ratio read e)))
      | inr r ↦ rw r (settle_outcome c t.shared none alive h (λ _. inl (ground arith)))
    ])

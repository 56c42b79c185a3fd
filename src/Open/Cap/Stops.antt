-- ===== src/Open/Cap/Stops.antt =====
-- `Cap` of src/open.rs over a decoder that has more bytes than it may hand out.
use etar.Prelude.{
  ℕ, ◌+◌, ◌-◌, ◌%◌, ◌≤◌, ◌<◌, ◌≡◌, refl, sym, ap, ◌∙◌, subst, true, false, List, [], ◌∷◌, Bytes,
  String, Option, none, some, length, ltb, All, length-append, arith, Option-cases, inl, inr, ok,
}
use etar.Errors.{cap_error}
use etar.Io.{
  ready, Shared, Turn, Poller, u64_mod, empty_buf, poll_error, Stopped, stop_or, until_error,
}
use etar.Io.Contract.{KeepsDecoded, filled-difference}
use etar.Open.Cap.{Cap, new_cap, breach, settle, poll_cap}
use etar.Open.Cap.Outcome.{breach-none, poll_cap_alive}
use etar.Guard.Framing.{IsFed, IsBlind}
use etar.Guard.Framing.Progress.{IsEager}

-- The caller has got `budget` bytes at most, and the error of a byte cap.
pub record IsCut {S : Type 0} (budget : ℕ) (r : Stopped S) : Type 0 where
  pub few : length r.bytes ≤ budget
  pub reason : String
  pub reported : r.error ≡ some (cap_error reason)

breach-charges :
    (sh : Shared) (max ratio read was : ℕ)
    → sh.decoded ≡ was
    → was + read < u64_mod
    → (breach sh max ratio read).1 ≡ record sh { decoded = was + read }
unfolding breach
breach-charges sh max ratio read was e room =
    let same : (sh.decoded + read) % u64_mod ≡ was + read = omega (arith, room, e) in
    λ i. record sh { decoded = same i }

module _ {R : Type 0} {P : R → Shared → Type 0} (poll : Poller R) (left : R → Bytes)
    (fed : IsFed P poll left) (eager : IsEager P poll left) (keeps : KeepsDecoded poll)
    (blind : IsBlind P) (max : ℕ) where
  -- A cap that has not failed, over a decoder with more bytes than it may still hand out.
  pub record Overfull (c : Cap R) (sh : Shared) : Type 0 where
    pub alive : c.failed ≡ false
    pub same_max : c.max ≡ max
    pub holds : P c.inner sh
    pub small : sh.decoded ≤ max
    pub over : max < sh.decoded + length (left c.inner)

  -- The decoder's turn, and the counts with what it handed out.
  abbrev turn_of : Cap R → Shared → ℕ → Turn R
  turn_of c sh n = poll c.inner sh (empty_buf n)

  abbrev charged : Cap R → Shared → ℕ → ℕ → Shared
  charged c sh n read = record (turn_of c sh n).shared { decoded = sh.decoded + read }

  -- A poll of such a cap settles what the decoder handed out.
  pub record Settled (c : Cap R) (sh : Shared) (n : ℕ) : Type 0 where
    pub read : ℕ
    pub reason : Option String
    pub turn :
        poll_cap poll c sh (empty_buf n) ≡ settle c 0 (turn_of c sh n) (charged c sh n read) reason
    pub handed : length (turn_of c sh n).buf.filled ≡ read
    pub some_bytes : 0 < read
    pub is_ready : (turn_of c sh n).poll ≡ ready (ok tt)
    pub within : reason ≡ none → sh.decoded + read ≤ max
    pub rest : length (left c.inner) ≡ read + length (left (turn_of c sh n).state)
    pub next : P (turn_of c sh n).state (charged c sh n read)

  poll_cap-Settled :
      (c : Cap R) (sh : Shared) (n : ℕ) → Overfull c sh → 0 < n → max + n < u64_mod → Settled c sh n
  poll_cap-Settled c sh n o room fits =
      let t = turn_of c sh n in
      let read = length t.buf.filled - 0 in
      let f = fed c.inner sh (empty_buf n) o.holds in
      let a =
        eager c.inner sh (empty_buf n) o.holds (omega (arith, room))
          (omega (arith, o.small, o.over)) in
      let some_ : 0 < read = omega (arith, a.some_bytes) in
      let bytes : read ≡ length f.bytes = filled-difference f.hands in
      let kept : t.shared.decoded ≡ sh.decoded = keeps c.inner sh (empty_buf n) in
      let no_wrap : sh.decoded + read < u64_mod =
        omega (arith, o.small, f.hands.fits, bytes, fits) in
      let charges = breach-charges t.shared c.max c.max_ratio read sh.decoded kept no_wrap in
      let reason = (breach t.shared c.max c.max_ratio read).0 in
      let positive : ltb 0 read ≡ true = ground (arith, some_) in
      record {
        read = read;
        reason = reason;
        turn =
            poll_cap_alive poll c sh (empty_buf n) o.alive
            ∙ rw positive (ap (λ sh'. settle c 0 t sh' reason) charges);
        handed = omega arith;
        some_bytes = some_;
        is_ready = a.is_ready;
        within = λ none_.
            let w = breach-none t.shared c.max c.max_ratio read none_ in
            omega (arith, w.total, ap (λ x. x.decoded) charges, o.same_max);
        rest = ap length f.fed ∙ length-append f.bytes (left t.state) ∙ omega (arith, bytes);
        next = blind t.state t.shared (sh.decoded + read) f.holds;
      }

  until_error-IsCut :
      (ns : List ℕ) (c : Cap R) (sh : Shared)
      → Overfull c sh
      → All (λ n. (0 < n) × (max + n < u64_mod)) ns
      → max < sh.decoded + length ns
      → IsCut (max - sh.decoded) (until_error (poll_cap poll) c sh ns)
  unfolding until_error settle
  until_error-IsCut [] c sh o rooms enough =
      let no : ⊥ = omega (arith, o.small, enough) in elim no [ ]
  until_error-IsCut (n ∷ ns) c sh o ((room, fits), rooms) enough =
      let p = poll_cap-Settled c sh n o room fits in
      let t = turn_of c sh n in
      let ends : (t' : Turn (Cap R))
          → poll_cap poll c sh (empty_buf n) ≡ t'
          → IsCut (max - sh.decoded)
              (stop_or t' (until_error (poll_cap poll) t'.state t'.shared ns) (poll_error t'.poll))
          → IsCut (max - sh.decoded) (until_error (poll_cap poll) c sh (n ∷ ns)) =
        λ t' e.
          subst
            (λ t'.
              IsCut (max - sh.decoded) (
                stop_or t' (until_error (poll_cap poll) t'.state t'.shared ns)
                  (poll_error t'.poll)))
            (sym e) in
      elim (Option-cases p.reason) [
        | inl e ↦
            let fine = p.within e in
            let goes_on =
              until_error-IsCut ns (record c { inner = t.state }) (charged c sh n p.read)
                (record {
                  alive = o.alive;
                  same_max = o.same_max;
                  holds = p.next;
                  small = fine;
                  over = omega (arith, o.over, p.rest);
                })
                rooms (omega (arith, enough, p.some_bytes)) in
            let rest =
              until_error (poll_cap poll) (record c { inner = t.state }) (charged c sh n p.read)
                ns in
            ends _ (p.turn ∙ ap (settle c 0 t (charged c sh n p.read)) e) (
              subst
                (λ q.
                  IsCut (max - sh.decoded)
                    (stop_or (settle c 0 t (charged c sh n p.read) none) rest (poll_error q)))
                (sym p.is_ready)
                (record {
                  few =
                      omega
                        (arith, goes_on.few, length-append t.buf.filled rest.bytes, p.handed, fine);
                  reason = goes_on.reason;
                  reported = goes_on.reported;
                }))
        | inr (why, e) ↦
            ends _ (p.turn ∙ ap (settle c 0 t (charged c sh n p.read)) e)
              (record { few = omega arith; reason = why; reported = refl })
      ]

-- A new cap over a decoder that holds more than `max` bytes, and neither fails nor waits, never comes
-- to the decoder's end: a caller that polls more than `max` times, each time with a buffer that has
-- room, gets `max` bytes at most and then the error of a byte cap. The decoder leaves the decoded count
-- alone, and no buffer is so large that the 64-bit count could wrap. What is assumed of the decoder may
-- rest on `P`, which holds at first and which it keeps.
pub new_cap-IsCut :
    {R : Type 0} {P : R → Shared → Type 0} (poll : Poller R) (left : R → Bytes)
    → IsFed P poll left
    → IsEager P poll left
    → KeepsDecoded poll
    → IsBlind P
    → (max ratio : ℕ) (s : R) (sh : Shared) (ns : List ℕ) → P s sh
    → sh.decoded ≡ 0
    → max < length (left s)
    → All (λ n. (0 < n) × (max + n < u64_mod)) ns
    → max < length ns
    → IsCut max (until_error (poll_cap poll) (new_cap s max ratio) sh ns)
new_cap-IsCut poll left fed eager keeps blind max ratio s sh ns p fresh over rooms enough =
    let cut =
      until_error-IsCut poll left fed eager keeps blind max ns (new_cap s max ratio) sh
        (record {
          alive = refl;
          same_max = refl;
          holds = p;
          small = omega (arith, fresh);
          over = omega (arith, fresh, over);
        })
        rooms (omega (arith, fresh, enough)) in
    record { few = omega (arith, cut.few); reason = cut.reason; reported = cut.reported }

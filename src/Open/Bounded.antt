-- ===== src/Open/Bounded.antt =====
-- `Bounded` of src/open.rs: the cap on one entry's body.
use etar.Prelude.{
  ℕ, ◌+◌, ◌-◌, ◌≤◌, ◌≡◌, refl, ap, Bool, true, false, List, [], ◌∷◌, length, ltb, err,
  length-append, arith, if◌then◌else◌, ◌⊎◌, inl, inr, Bool-cases,
}
use etar.Errors.{cap_error}
use etar.Io.{ready, Shared, Poller, drain, empty_buf, set_filled}
use etar.Io.Contract.{IsLawful, stopped-Hands, cut-Hands}

pub record Bounded (R : Type 0) : Type 0 where
  pub inner : R
  pub remaining : ℕ
  pub failed : Bool

abbrev pub new_bounded : {R : Type 0} → R → ℕ → Bounded R
new_bounded inner entry_max = record { inner = inner; remaining = entry_max; failed = false }

unfoldable pub poll_bounded : {R : Type 0} → Poller R → Poller (Bounded R)
poll_bounded poll d sh buf =
    if d.failed
    then record {
      state = d;
      shared = sh;
      buf = buf;
      poll = ready (err (cap_error "aborted entry body"));
    }
    else (let before = length buf.filled in
        let t = poll d.inner sh buf in
        let read = length t.buf.filled - before in
        if ltb d.remaining read
        then record {
          state = record d { inner = t.state; failed = true };
          shared = t.shared;
          buf = set_filled t.buf before;
          poll = ready (err (cap_error "max_entry_bytes"));
        }
        else record {
          state = record d { inner = t.state; remaining = d.remaining - read };
          shared = t.shared;
          buf = t.buf;
          poll = t.poll;
        })

-- One poll with an empty buffer hands out no more than remains, and takes it off.
poll_bounded-takes :
    {R : Type 0} (poll : Poller R) (d : Bounded R) (sh : Shared) (n : ℕ)
    → (let t = poll_bounded poll d sh (empty_buf n) in
        (length t.buf.filled + t.state.remaining ≡ d.remaining)
        ⊎ (length t.buf.filled ≡ 0) × (t.state.failed ≡ true))
unfolding poll_bounded
poll_bounded-takes poll d sh n = ground arith

-- What it hands out comes off what remains.
pub poll_bounded-le :
    {R : Type 0} (poll : Poller R) (d : Bounded R) (sh : Shared) (n : ℕ)
    → (let t = poll_bounded poll d sh (empty_buf n) in
        length t.buf.filled + t.state.remaining ≤ d.remaining)
unfolding poll_bounded
poll_bounded-le poll d sh n = ground arith

module _ {R : Type 0} (poll : Poller R) where
  drain-poll_bounded_failed :
      (d : Bounded R) (sh : Shared) (ns : List ℕ)
      → d.failed ≡ true
      → (drain (poll_bounded poll) d sh ns).bytes ≡ []
  unfolding drain poll_bounded
  drain-poll_bounded_failed d sh [] h = refl
  drain-poll_bounded_failed d sh (n ∷ ns) h = simp h (drain-poll_bounded_failed d sh ns h)

  drain-poll_bounded-le :
      (d : Bounded R) (sh : Shared) (ns : List ℕ)
      → length (drain (poll_bounded poll) d sh ns).bytes ≤ d.remaining
  unfolding drain
  drain-poll_bounded-le d sh [] = omega arith
  drain-poll_bounded-le d sh (n ∷ ns) =
      let t = poll_bounded poll d sh (empty_buf n) in
      let rest = drain (poll_bounded poll) t.state t.shared ns in
      elim (poll_bounded-takes poll d sh n) [
        | inl e ↦ omega (
          arith,
          drain-poll_bounded-le t.state t.shared ns,
          length-append t.buf.filled rest.bytes,
        )
        | inr (e, f) ↦ omega (
          arith,
          length-append t.buf.filled rest.bytes,
          ap length (drain-poll_bounded_failed t.state t.shared ns f),
        )
      ]

  -- A new bound hands out at most `entry_max` bytes over any sequence of polls, each with an empty
  -- buffer, whatever the entry under it yields and whether or not polls fail.
  pub drain-poll_bounded-le-max :
      (inner : R) (entry_max : ℕ) (sh : Shared) (ns : List ℕ)
      → length (drain (poll_bounded poll) (new_bounded inner entry_max) sh ns).bytes ≤ entry_max
  drain-poll_bounded-le-max inner entry_max sh ns =
      drain-poll_bounded-le (new_bounded inner entry_max) sh ns

pub poll_bounded-IsLawful :
    {R : Type 0} (poll : Poller R) → IsLawful poll → IsLawful (poll_bounded poll)
unfolding poll_bounded
poll_bounded-IsLawful poll lawful d sh b =
    let t = poll d.inner sh b in
    let (bs, h) = lawful d.inner sh b in
    elim (Bool-cases d.failed) [
      | inl e ↦ simp e ([], stopped-Hands d sh b (cap_error "aborted entry body"))
      | inr e ↦
          simp e (elim (Bool-cases (ltb d.remaining (length t.buf.filled - length b.filled))) [
            | inl over ↦ rw over (
              [],
              cut-Hands h (record d { inner = t.state; failed = true }) t.shared
                  (cap_error "max_entry_bytes"),
            )
            | inr fits ↦ rw fits (
              bs,
              record { filled = h.filled; same_size = h.same_size; fits = h.fits; quiet = h.quiet },
            )
          ])
    ]

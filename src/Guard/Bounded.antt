-- ===== src/Guard/Bounded.antt =====
-- The buffer of a PAX body in `HeaderGuard` of src/guard.rs, over sequences of polls.
use etar.Prelude.{
  ℕ, zero, suc, ◌+◌, ◌-◌, ◌≤◌, ◌≡◌, refl, Option, none, some, List, [], ◌∷◌, Bytes, length, take,
  min, ltb, ◌==◌, ok, err, arith, Bool-cases, inl, inr, length-append, length-take,
}
use etar.Io.{Poll, pending, ready, ReadBuf, Shared, Turn, Poller, remaining, empty_buf, drain}
use etar.Guard.{
  HeaderGuard, new_guard, Outcome, inspect, inspect_size, open_pax, set_next_data, close_pax,
  take_pax, end_data, feed_pax,
}
use etar.Guard.Reading.{
  Filling, data_read, read_data, fill_read, fill, emit, emit_inspected, header_read, poll_guard,
}

-- The bytes of a PAX body that are buffered, and those that may still come, fit the limit.
abbrev pub Fits : Option Bytes → ℕ → ℕ → Type 0
Fits none left max = Unit {0}
Fits (some body) left max = length body + left ≤ max

abbrev pub IsBounded : {R : Type 0} → ℕ → HeaderGuard R → Type 0
IsBounded max g = Fits g.pax_body g.pax_remaining max × (g.max_metadata_bytes ≡ max)

module _ {R : Type 0} (max : ℕ) (g : HeaderGuard R) (b : IsBounded max g) where
  end_data-IsBounded : IsBounded max (end_data g).0
  unfolding end_data take_pax close_pax
  end_data-IsBounded = ground arith

  inspect-IsBounded : (header_size : Bytes → Option ℕ) → IsBounded max (inspect header_size g).0
  unfolding inspect inspect_size open_pax set_next_data
  inspect-IsBounded header_size = ground arith

feed_pax-IsBounded :
    {R : Type 0} (max : ℕ) (g : HeaderGuard R) (bytes : Bytes) (o : Option Bytes)
    → Fits o g.pax_remaining max
    → g.pax_body ≡ o
    → g.max_metadata_bytes ≡ max
    → IsBounded max (feed_pax g bytes o)
unfolding feed_pax
feed_pax-IsBounded max g bytes none f e m = (rw e tt, m)
feed_pax-IsBounded max g bytes (some body) f e m =
    let keep = min (length bytes) g.pax_remaining in
    (omega (arith, length-append body (take keep bytes), length-take keep bytes), m)

module _ {R : Type 0} (max : ℕ) where
  emit-IsBounded :
      (g : HeaderGuard R) (sh : Shared) (out : ReadBuf)
      → IsBounded max g
      → IsBounded max (emit g sh out).state
  unfolding emit
  emit-IsBounded g sh out b =
      elim (Bool-cases (g.emitted + min (remaining out) (512 - g.emitted) == 512)) [
        | inl e ↦ rw e (end_data-IsBounded max _ b)
        | inr e ↦ rw e b
      ]

  emit_inspected-IsBounded :
      (o : Outcome R) (sh : Shared) (out : ReadBuf)
      → IsBounded max o.0
      → IsBounded max (emit_inspected o sh out).state
  unfolding emit_inspected
  emit_inspected-IsBounded (g, ok u) sh out b = emit-IsBounded g sh out b
  emit_inspected-IsBounded (g, err e) sh out b = b

  data_read-IsBounded :
      (g : HeaderGuard R) (out : ReadBuf) (t : Turn R) (p : Poll)
      → IsBounded max g
      → IsBounded max (data_read g out t p).state
  unfolding data_read
  data_read-IsBounded g out t pending b = b
  data_read-IsBounded g out t (ready (err e)) b = b
  data_read-IsBounded g out t (ready (ok u)) b =
      end_data-IsBounded max _
        (feed_pax-IsBounded max (record g { inner = t.state }) t.buf.filled g.pax_body b.0 refl b.1)

  header_read-IsBounded :
      (header_size : Bytes → Option ℕ) (f : Filling R) (out : ReadBuf)
      → IsBounded max f.guard
      → IsBounded max (header_read header_size f out).state
  unfolding header_read
  header_read-IsBounded header_size f out b = ground (
    arith,
    emit-IsBounded f.guard f.shared out b,
    emit_inspected-IsBounded (inspect header_size f.guard) f.shared out
        (inspect-IsBounded max f.guard b header_size),
  )

  fill_read-IsBounded :
      (more : HeaderGuard R → Shared → Filling R) (g : HeaderGuard R) (t : Turn R) (p : Poll)
      → ((g' : HeaderGuard R) (sh : Shared) → IsBounded max g' → IsBounded max (more g' sh).guard)
      → IsBounded max g
      → IsBounded max (fill_read more g t p).guard
  unfolding fill_read
  fill_read-IsBounded more g t pending next b = b
  fill_read-IsBounded more g t (ready (err e)) next b = b
  fill_read-IsBounded more g t (ready (ok u)) next b =
      elim (Bool-cases (length t.buf.filled == 0)) [
        | inl e ↦ rw e b
        | inr e ↦ rw e (next (record g { filled = g.filled + length t.buf.filled }) t.shared b)
      ]

module _ {R : Type 0} (poll : Poller R) (max : ℕ) where
  fill-IsBounded :
      (fuel : ℕ) (g : HeaderGuard R) (sh : Shared)
      → IsBounded max g
      → IsBounded max (fill poll fuel g sh).guard
  unfolding fill
  fill-IsBounded zero g sh b = b
  fill-IsBounded (suc fuel) g sh b =
      let t = poll g.inner sh (empty_buf (512 - g.filled)) in
      elim (Bool-cases (ltb g.filled 512)) [
        | inl e ↦ rw e (fill_read-IsBounded max (fill poll fuel) _ t t.poll (fill-IsBounded fuel) b)
        | inr e ↦ rw e b
      ]

  poll_guard-IsBounded :
      (header_size : Bytes → Option ℕ) (g : HeaderGuard R) (sh : Shared) (out : ReadBuf)
      → IsBounded max g
      → IsBounded max (poll_guard poll header_size g sh out).state
  unfolding poll_guard read_data
  poll_guard-IsBounded header_size g sh out b =
      let t = poll g.inner sh (empty_buf (min g.data_remaining (remaining out))) in
      ground (
        arith,
        data_read-IsBounded max g out t t.poll b,
        header_read-IsBounded max header_size (fill poll 512 g sh) out (fill-IsBounded 512 g sh b),
      )

  drain-poll_guard-IsBounded :
      (header_size : Bytes → Option ℕ) (ns : List ℕ) (g : HeaderGuard R) (sh : Shared)
      → IsBounded max g
      → IsBounded max (drain (poll_guard poll header_size) g sh ns).last
  unfolding drain
  drain-poll_guard-IsBounded header_size [] g sh b = b
  drain-poll_guard-IsBounded header_size (n ∷ ns) g sh b =
      let t = poll_guard poll header_size g sh (empty_buf n) in
      drain-poll_guard-IsBounded header_size ns t.state t.shared
        (poll_guard-IsBounded header_size g sh (empty_buf n) b)

-- After any sequence of polls of a new guard, whatever the stream holds and whether or not polls
-- fail, the bytes of a PAX body that the guard has buffered, with those that it may still buffer, are
-- at most `max_metadata_bytes`.
pub drain-new_guard-IsBounded :
    {R : Type 0} (poll : Poller R) (header_size : Bytes → Option ℕ) (inner : R)
    (max_metadata_bytes : ℕ) (sh : Shared) (ns : List ℕ)
    → IsBounded max_metadata_bytes
        (drain (poll_guard poll header_size) (new_guard inner max_metadata_bytes) sh ns).last
unfolding new_guard
drain-new_guard-IsBounded poll header_size inner max sh ns =
    drain-poll_guard-IsBounded poll max header_size ns (new_guard inner max) sh (tt, refl)

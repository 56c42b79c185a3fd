-- ===== src/Guard/Keeps.antt =====
-- What the reader under `HeaderGuard` of src/guard.rs keeps, the guard's polls keep: they poll it with
-- buffers of their own, of 512 bytes at most, or with the caller's.
use etar.Prelude.{
  ℕ, zero, suc, ◌+◌, ◌-◌, ◌≤◌, Bool-cases, inl, inr, Option, Bytes, List, [], ◌∷◌, length, min, ltb,
  ◌==◌, ok, err, arith, All, Option-cases,
}
use etar.Io.{Poll, pending, ready, ReadBuf, Shared, Turn, Poller, remaining, empty_buf, drain}
use etar.Guard.{HeaderGuard, Outcome, inspect, feed_pax}
use etar.Guard.Framed.{end_data-SameFrame, inspect-SameFrame, feed_pax-SameFrame}
use etar.Guard.Reading.{
  overwrite, Filling, data_read, read_data, fill_read, fill, emit, emit_inspected, header_read,
  poll_guard,
}

module _ {R : Type 0} (P : R → Shared → Type 0) where
  abbrev HoldsAfter : Turn (HeaderGuard R) → Type 0
  HoldsAfter t = P t.state.inner t.shared

  emit-HoldsAfter :
      (g : HeaderGuard R) (sh : Shared) (out : ReadBuf) → P g.inner sh → HoldsAfter (emit g sh out)
  unfolding emit
  emit-HoldsAfter g sh out p =
      let n = min (remaining out) (512 - g.emitted) in
      let next = record g {
        filled = 0;
        emitted = 0;
        data_remaining = g.next_data;
        next_data = 0;
        trailer = g.next_trailer;
      } in
      elim (Bool-cases (g.emitted + n == 512)) [
        | inl e ↦ rw e (rw ((end_data-SameFrame next).inner) p)
        | inr e ↦ rw e p
      ]

  emit_inspected-HoldsAfter :
      (o : Outcome R) (sh : Shared) (out : ReadBuf)
      → P o.0.inner sh
      → HoldsAfter (emit_inspected o sh out)
  unfolding emit_inspected
  emit_inspected-HoldsAfter (g, ok u) sh out p = emit-HoldsAfter g sh out p
  emit_inspected-HoldsAfter (g, err e) sh out p = p

  header_read-HoldsAfter :
      (header_size : Bytes → Option ℕ) (f : Filling R) (out : ReadBuf)
      → P f.guard.inner f.shared
      → HoldsAfter (header_read header_size f out)
  unfolding header_read
  header_read-HoldsAfter header_size f out p = elim (Option-cases f.returned) [
    | inl e ↦ rw e (elim (Bool-cases (f.guard.emitted == 0)) [
      | inl start ↦ rw start (
          emit_inspected-HoldsAfter (inspect header_size f.guard) f.shared out
            (rw ((inspect-SameFrame f.guard header_size).inner) p))
      | inr begun ↦ rw begun (emit-HoldsAfter f.guard f.shared out p)
    ])
    | inr (q, e) ↦ rw e p
  ]

  data_read-HoldsAfter :
      (g : HeaderGuard R) (out : ReadBuf) (t : Turn R) (q : Poll)
      → P t.state t.shared
      → HoldsAfter (data_read g out t q)
  unfolding data_read
  data_read-HoldsAfter g out t pending p = p
  data_read-HoldsAfter g out t (ready (err e)) p = p
  data_read-HoldsAfter g out t (ready (ok u)) p =
      let bs = t.buf.filled in
      let read = record g { inner = t.state } in
      let fed = feed_pax read bs g.pax_body in
      let next = record fed { data_remaining = g.data_remaining - length bs } in
      rw ((end_data-SameFrame next).inner, (feed_pax-SameFrame read bs g.pax_body).inner) p

  fill_read-Holds :
      (more : HeaderGuard R → Shared → Filling R) (g : HeaderGuard R) (t : Turn R) (q : Poll)
      → ((g' : HeaderGuard R) (sh : Shared)
          → P g'.inner sh
          → P (more g' sh).guard.inner (more g' sh).shared)
      → P g.inner t.shared
      → P (fill_read more g t q).guard.inner (fill_read more g t q).shared
  unfolding fill_read
  fill_read-Holds more g t pending next p = p
  fill_read-Holds more g t (ready (err e)) next p = p
  fill_read-Holds more g t (ready (ok u)) next p = elim (Bool-cases (length t.buf.filled == 0)) [
    | inl e ↦ rw e p
    | inr e ↦ rw e (next (record g { filled = g.filled + length t.buf.filled }) t.shared p)
  ]

  -- The reader keeps it over polls with room for `room` bytes.
  module _ (poll : Poller R) (room : ℕ)
      (keeps : (s : R) (sh : Shared) (b : ReadBuf)
        → remaining b ≤ room
        → P s sh
        → P (poll s sh b).state (poll s sh b).shared)
      (whole_header : 512 ≤ room) where
    fill-Holds :
        (fuel : ℕ) (g : HeaderGuard R) (sh : Shared)
        → P g.inner sh
        → P (fill poll fuel g sh).guard.inner (fill poll fuel g sh).shared
    unfolding fill
    fill-Holds zero g sh p = p
    fill-Holds (suc fuel) g sh p =
        let t = poll g.inner sh (empty_buf (512 - g.filled)) in
        let read = record g {
          inner = t.state;
          header = overwrite g.header g.filled t.buf.filled;
        } in
        elim (Bool-cases (ltb g.filled 512)) [
          | inl e ↦ rw e (
              fill_read-Holds (fill poll fuel) read t t.poll (fill-Holds fuel)
                (keeps g.inner sh (empty_buf (512 - g.filled)) (omega arith) p))
          | inr e ↦ rw e p
        ]

    pub poll_guard-Holds :
        (header_size : Bytes → Option ℕ) (g : HeaderGuard R) (sh : Shared) (out : ReadBuf)
        → remaining out ≤ room
        → P g.inner sh
        → HoldsAfter (poll_guard poll header_size g sh out)
    unfolding poll_guard read_data
    poll_guard-Holds header_size g sh out small p =
        let n = min g.data_remaining (remaining out) in
        let t = poll g.inner sh (empty_buf n) in
        elim (Bool-cases (remaining out == 0)) [
          | inl e ↦ rw e p
          | inr e ↦ rw e (elim (Bool-cases g.trailer) [
            | inl tr ↦ simp tr (keeps g.inner sh out small p)
            | inr tr ↦ simp tr (elim (Bool-cases (ltb 0 g.data_remaining)) [
              | inl d ↦ rw d (
                  data_read-HoldsAfter g out t t.poll
                    (keeps g.inner sh (empty_buf n) (omega (arith, small)) p))
              | inr d ↦ rw d (
                  header_read-HoldsAfter header_size (fill poll 512 g sh) out
                    (fill-Holds 512 g sh p))
            ])
          ])
        ]

    pub drain-poll_guard-Holds :
        (header_size : Bytes → Option ℕ) (ns : List ℕ) (g : HeaderGuard R) (sh : Shared)
        → All (λ n. n ≤ room) ns
        → P g.inner sh
        → (let d = drain (poll_guard poll header_size) g sh ns in P d.last.inner d.after)
    unfolding drain
    drain-poll_guard-Holds header_size [] g sh small p = p
    drain-poll_guard-Holds header_size (n ∷ ns) g sh (s, small) p =
        let t = poll_guard poll header_size g sh (empty_buf n) in
        drain-poll_guard-Holds header_size ns t.state t.shared small
          (poll_guard-Holds header_size g sh (empty_buf n) (omega (arith, s)) p)

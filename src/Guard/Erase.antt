-- ===== src/Guard/Erase.antt =====
-- Recording the reader under `HeaderGuard` of src/guard.rs changes nothing that the guard does.
use etar.Prelude.{
  ℕ, zero, suc, ◌+◌, ◌-◌, ◌≡◌, refl, ap, ◌∙◌, Bool-cases, inl, inr, Option, none, some, Bytes, List,
  [], ◌∷◌, ◌++◌, length, min, ltb, ◌==◌, ok, err, arith, Option-cases, Bool, if◌then◌else◌, true,
  false,
}
use etar.Io.{
  Poll, pending, ready, put_slice, ReadBuf, Shared, Turn, Poller, remaining, empty_buf, drain,
}
use etar.Io.Log.{Recorded, poll_recorded}
use etar.Guard.{
  HeaderGuard, Outcome, inspect, inspect_size, open_pax, set_next_data, end_data, take_pax,
  close_pax, feed_pax,
}
use etar.Guard.Reading.{
  overwrite, Filling, data_read, read_data, fill_read, fill, emit, emit_inspected, header_read,
  poll_guard, finish,
}

-- A function goes into the branches of three tests in a row.
choices-ap :
    {X Y : Type 0} (f : X → Y) (a b c : Bool) {w x y z : X} {w' x' y' z' : Y}
    → f w ≡ w'
    → f x ≡ x'
    → f y ≡ y'
    → f z ≡ z'
    → f (if a then w else if b then x else if c then y else z)
      ≡ (if a then w' else if b then x' else if c then y' else z')
choices-ap f true b c p q r s = p
choices-ap f false true c p q r s = q
choices-ap f false false true p q r s = r
choices-ap f false false false p q r s = s

module _ {R : Type 0} where
  unfoldable pub erase : HeaderGuard (Recorded R) → HeaderGuard R
  erase g = record {
    inner = g.inner.state;
    header = g.header;
    filled = g.filled;
    emitted = g.emitted;
    data_remaining = g.data_remaining;
    next_data = g.next_data;
    next_trailer = g.next_trailer;
    trailer = g.trailer;
    max_metadata_bytes = g.max_metadata_bytes;
    pax_body = g.pax_body;
    pax_remaining = g.pax_remaining;
    pax_size = g.pax_size;
  }

  abbrev erase_outcome : Outcome (Recorded R) → Outcome R
  erase_outcome o = (erase o.0, o.1)

  abbrev erase_turn : Turn (HeaderGuard (Recorded R)) → Turn (HeaderGuard R)
  erase_turn t = record { state = erase t.state; shared = t.shared; buf = t.buf; poll = t.poll }

  abbrev erase_filling : Filling (Recorded R) → Filling R
  erase_filling f = record { guard = erase f.guard; shared = f.shared; returned = f.returned }

  end_data-erase : (g : HeaderGuard (Recorded R)) → erase_outcome (end_data g) ≡ end_data (erase g)
  unfolding end_data take_pax close_pax erase
  end_data-erase g = ground arith

  inspect-erase :
      (header_size : Bytes → Option ℕ) (g : HeaderGuard (Recorded R))
      → erase_outcome (inspect header_size g) ≡ inspect header_size (erase g)
  unfolding inspect inspect_size open_pax set_next_data erase
  inspect-erase header_size g = ground arith

  feed_pax-erase :
      (g : HeaderGuard (Recorded R)) (bs : Bytes) (o : Option Bytes)
      → erase (feed_pax g bs o) ≡ feed_pax (erase g) bs o
  unfolding feed_pax erase
  feed_pax-erase g bs none = refl
  feed_pax-erase g bs (some body) = refl

  finish-erase :
      (o : Outcome (Recorded R)) (o' : Outcome R) (sh : Shared) (out : ReadBuf)
      → erase_outcome o ≡ o'
      → erase_turn (finish o sh out) ≡ finish o' sh out
  finish-erase (g, r) o' sh out e = rw (← e) refl

  emit-erase :
      (g : HeaderGuard (Recorded R)) (sh : Shared) (out : ReadBuf)
      → erase_turn (emit g sh out) ≡ emit (erase g) sh out
  unfolding emit erase
  emit-erase g sh out =
      let n = min (remaining out) (512 - g.emitted) in
      let next = record g {
        filled = 0;
        emitted = 0;
        data_remaining = g.next_data;
        next_data = 0;
        trailer = g.next_trailer;
      } in
      elim (Bool-cases (g.emitted + n == 512)) [
        | inl e ↦
            rw e (finish-erase (end_data next) (end_data (erase next)) sh _ (end_data-erase next))
        | inr e ↦ rw e
      ]

  emit_inspected-erase :
      (o : Outcome (Recorded R)) (sh : Shared) (out : ReadBuf)
      → erase_turn (emit_inspected o sh out) ≡ emit_inspected (erase_outcome o) sh out
  unfolding emit_inspected
  emit_inspected-erase (g, ok u) sh out = emit-erase g sh out
  emit_inspected-erase (g, err e) sh out = refl

  header_read-erase :
      (header_size : Bytes → Option ℕ) (f : Filling (Recorded R)) (out : ReadBuf)
      → erase_turn (header_read header_size f out) ≡ header_read header_size (erase_filling f) out
  unfolding header_read
  header_read-erase header_size f out = elim (Option-cases f.returned) [
    | inl e ↦ rw e (elim (Bool-cases (f.guard.emitted == 0)) [
      | inl start ↦
          let start' : ((erase f.guard).emitted == 0) ≡ true = unfold erase in start in
          rw (start, start')
            (emit_inspected-erase (inspect header_size f.guard) f.shared out
              ∙ ap (λ o. emit_inspected o f.shared out) (inspect-erase header_size f.guard))
      | inr begun ↦
          let begun' : ((erase f.guard).emitted == 0) ≡ false = unfold erase in begun in
          rw (begun, begun') (emit-erase f.guard f.shared out)
    ])
    | inr (p, e) ↦ rw e
  ]

  abbrev strip : Turn (Recorded R) → Turn R
  strip t = record { state = t.state.state; shared = t.shared; buf = t.buf; poll = t.poll }

  data_read-erase :
      (g : HeaderGuard (Recorded R)) (out : ReadBuf) (t : Turn (Recorded R)) (p : Poll)
      → erase_turn (data_read g out t p) ≡ data_read (erase g) out (strip t) p
  unfolding data_read erase
  data_read-erase g out t pending = refl
  data_read-erase g out t (ready (err e)) = refl
  data_read-erase g out t (ready (ok u)) =
      let bs = t.buf.filled in
      let read = record g { inner = t.state } in
      let fed = feed_pax read bs g.pax_body in
      let next = record fed { data_remaining = g.data_remaining - length bs } in
      finish-erase (end_data next) (end_data (erase next)) t.shared _ (end_data-erase next)
      ∙ ap
          (λ x.
            finish (end_data (record x { data_remaining = g.data_remaining - length bs })) t.shared
              (put_slice out bs))
          (feed_pax-erase read bs g.pax_body)

  fill_read-erase :
      (more : HeaderGuard (Recorded R) → Shared → Filling (Recorded R))
      (more' : HeaderGuard R → Shared → Filling R) (g : HeaderGuard (Recorded R))
      (t : Turn (Recorded R)) (p : Poll)
      → ((g' : HeaderGuard (Recorded R)) (sh : Shared)
          → erase_filling (more g' sh) ≡ more' (erase g') sh)
      → erase_filling (fill_read more g t p) ≡ fill_read more' (erase g) (strip t) p
  unfolding fill_read erase
  fill_read-erase more more' g t pending same = refl
  fill_read-erase more more' g t (ready (err e)) same = refl
  fill_read-erase more more' g t (ready (ok u)) same =
      elim (Bool-cases (length t.buf.filled == 0)) [
        | inl e ↦ rw e
        | inr e ↦ rw e (same (record g { filled = g.filled + length t.buf.filled }) t.shared)
      ]

  module _ (poll : Poller R) where
    fill-erase :
        (fuel : ℕ) (g : HeaderGuard (Recorded R)) (sh : Shared)
        → erase_filling (fill (poll_recorded poll) fuel g sh) ≡ fill poll fuel (erase g) sh
    unfolding fill erase poll_recorded
    fill-erase zero g sh = refl
    fill-erase (suc fuel) g sh =
        let t = poll_recorded poll g.inner sh (empty_buf (512 - g.filled)) in
        let read = record g {
          inner = t.state;
          header = overwrite g.header g.filled t.buf.filled;
        } in
        elim (Bool-cases (ltb g.filled 512)) [
          | inl e ↦ rw e (
              fill_read-erase (fill (poll_recorded poll) fuel) (fill poll fuel) read t t.poll
                (fill-erase fuel))
          | inr e ↦ rw e
        ]

    read_data-erase :
        (g : HeaderGuard (Recorded R)) (sh : Shared) (out : ReadBuf)
        → erase_turn (read_data (poll_recorded poll) g sh out) ≡ read_data poll (erase g) sh out
    unfolding read_data erase poll_recorded
    read_data-erase g sh out =
        let t = poll_recorded poll g.inner sh (empty_buf (min g.data_remaining (remaining out))) in
        data_read-erase g out t t.poll

    poll_guard-erase :
        (header_size : Bytes → Option ℕ) (g : HeaderGuard (Recorded R)) (sh : Shared)
        (out : ReadBuf)
        → erase_turn (poll_guard (poll_recorded poll) header_size g sh out)
          ≡ poll_guard poll header_size (erase g) sh out
    unfolding poll_guard erase poll_recorded
    poll_guard-erase header_size g sh out =
        choices-ap erase_turn (remaining out == 0) (g.trailer) (ltb 0 g.data_remaining) refl refl
          (read_data-erase g sh out)
          (header_read-erase header_size (fill (poll_recorded poll) 512 g sh) out
            ∙ ap (λ f. header_read header_size f out) (fill-erase 512 g sh))

    -- Draining a guard hands out the same bytes whether the reader under it is recorded or not.
    pub drain_bytes-erase :
        (header_size : Bytes → Option ℕ) (ns : List ℕ) (g : HeaderGuard (Recorded R)) (sh : Shared)
        → (drain (poll_guard (poll_recorded poll) header_size) g sh ns).bytes
          ≡ (drain (poll_guard poll header_size) (erase g) sh ns).bytes
    unfolding drain
    drain_bytes-erase header_size [] g sh = refl
    drain_bytes-erase header_size (n ∷ ns) g sh =
        let t = poll_guard (poll_recorded poll) header_size g sh (empty_buf n) in
        let e = poll_guard-erase header_size g sh (empty_buf n) in
        ap (λ b. t.buf.filled ++ b) (drain_bytes-erase header_size ns t.state t.shared)
        ∙ ap (λ x. x.buf.filled ++ (drain (poll_guard poll header_size) x.state x.shared ns).bytes)
            e

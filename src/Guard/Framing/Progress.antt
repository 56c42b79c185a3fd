-- ===== src/Guard/Framing/Progress.antt =====
-- `HeaderGuard::poll_read` of src/guard.rs over a reader that never waits: every poll with room hands
-- out a byte, or fails, until the stream has ended.
use etar.Prelude.{
  ℕ, zero, suc, ◌+◌, ◌-◌, ◌≤◌, ◌<◌, ◌≡◌, refl, ap, ◌∙◌, subst, true, false, Option, none, List, [],
  ◌∷◌, ◌++◌, Bytes, length, take, drop, min, ltb, ◌==◌, ok, err, ◌⊎◌, inl, inr, arith, Bool-cases,
  length-append, length-take, length-drop,
}
use etar.Io.{Poll, pending, ready, ReadBuf, Shared, Turn, Poller, remaining, empty_buf}
use etar.Io.Contract.{is_error}
use etar.Guard.{HeaderGuard, Outcome, inspect}
use etar.Guard.Framed.{inspect-SameFrame}
use etar.Guard.Reading.{
  overwrite, Filling, fill_read, fill, emit, emit_inspected, header_read, data_read, read_data,
  poll_guard,
}
use etar.Guard.Framing.{Member, bytes_of, Accepts, IsFed}
use etar.Guard.Framing.Phases.{
  AtHeader, InBody, Tracks, at_header, sending, closing, in_body, in_trailer, stream,
}
use etar.Guard.Framing.Reading.{fill-Fills, fill_full}

-- A reader that is ready with a byte at least while it has any and the buffer has room.
pub record Advances {R : Type 0} (b : ReadBuf) (t : Turn R) : Type 0 where
  pub is_ready : t.poll ≡ ready (ok tt)
  pub some_bytes : length b.filled < length t.buf.filled

abbrev pub IsEager : {R : Type 0} → (R → Shared → Type 0) → Poller R → (R → Bytes) → Type 0
IsEager {R} P poll left =
    (s : R) (sh : Shared) (b : ReadBuf)
    → P s sh
    → 0 < remaining b
    → 0 < length (left s)
    → Advances b (poll s sh b)

-- A byte is handed out, or the poll fails.
abbrev pub Moves : {R : Type 0} → Turn R → Type 0
Moves t = (0 < length t.buf.filled) ⊎ (is_error t.poll ≡ true)

module _ {R : Type 0} where
  emit-Moves :
      (g : HeaderGuard R) (sh : Shared) (n : ℕ)
      → 0 < n
      → length g.header ≡ 512
      → g.emitted < 512
      → Moves (emit g sh (empty_buf n))
  unfolding emit
  emit-Moves g sh n some_room size more =
      let k = min (remaining (empty_buf n)) (512 - g.emitted) in
      let some_ : 0 < length (take k (drop g.emitted g.header)) =
        omega (arith, length-take k (drop g.emitted g.header), length-drop g.emitted g.header) in
      elim (Bool-cases (g.emitted + k == 512)) [
        | inl e ↦ rw e (inl some_)
        | inr e ↦ rw e (inl some_)
      ]

  emit_inspected-Moves :
      (o : Outcome R) (sh : Shared) (n : ℕ)
      → 0 < n
      → length o.0.header ≡ 512
      → o.0.emitted < 512
      → Moves (emit_inspected o sh (empty_buf n))
  unfolding emit_inspected
  emit_inspected-Moves (g, ok u) sh n some_room size more = emit-Moves g sh n some_room size more
  emit_inspected-Moves (g, err e) sh n some_room size more = inr refl

  header_read-Moves :
      (header_size : Bytes → Option ℕ) (f : Filling R) (n : ℕ)
      → 0 < n
      → f.returned ≡ none
      → length f.guard.header ≡ 512
      → f.guard.emitted < 512
      → Moves (header_read header_size f (empty_buf n))
  unfolding header_read
  header_read-Moves header_size f n some_room full size more =
      let frame = inspect-SameFrame f.guard header_size in
      elim (Bool-cases (f.guard.emitted == 0)) [
        | inl e ↦
            rw (full, e)
              (emit_inspected-Moves (inspect header_size f.guard) f.shared n some_room
                (ap length frame.header ∙ size) (omega (arith, frame.emitted)))
        | inr e ↦ rw (full, e) (emit-Moves f.guard f.shared n some_room size more)
      ]

  data_read-Moves :
      (g : HeaderGuard R) (n : ℕ) (t : Turn R) (p : Poll)
      → p ≡ ready (ok tt)
      → 0 < length t.buf.filled
      → Moves (data_read g (empty_buf n) t p)
  unfolding data_read
  data_read-Moves g n t pending e some_ = cc
  data_read-Moves g n t (ready (err x)) e some_ = cc
  data_read-Moves g n t (ready (ok u)) e some_ = inl some_

module _ {R : Type 0} {P : R → Shared → Type 0} (poll : Poller R) (left : R → Bytes)
    (fed : IsFed P poll left) (eager : IsEager P poll left) where
  fill_read-full :
      (more : HeaderGuard R → Shared → Filling R) (g : HeaderGuard R) (t : Turn R) (p : Poll)
      → p ≡ ready (ok tt)
      → 0 < length t.buf.filled
      → (more (record g { filled = g.filled + length t.buf.filled }) t.shared).returned ≡ none
      → (fill_read more g t p).returned ≡ none
  unfolding fill_read
  fill_read-full more g t pending e some_ next = cc
  fill_read-full more g t (ready (err x)) e some_ next = cc
  fill_read-full more g t (ready (ok u)) e some_ next =
      let none_ : (length t.buf.filled == 0) ≡ false = ground arith in rw none_ next

  -- The loop fills the header if the reader has enough bytes for it.
  fill-full :
      (fuel : ℕ) (g : HeaderGuard R) (sh : Shared)
      → 512 ≤ g.filled + length (left g.inner)
      → P g.inner sh
      → (fill poll fuel g sh).returned ≡ none
  unfolding fill
  fill-full zero g sh enough p = refl
  fill-full (suc fuel) g sh enough p =
      let b = empty_buf (512 - g.filled) in
      let t = poll g.inner sh b in
      let f = fed g.inner sh b p in
      let read = record g { inner = t.state; header = overwrite g.header g.filled t.buf.filled } in
      elim (Bool-cases (ltb g.filled 512)) [
        | inl e ↦
            let less : g.filled < 512 = ground arith in
            let a = eager g.inner sh b p (omega arith) (omega arith) in
            rw e (
              fill_read-full (fill poll fuel) read t t.poll a.is_ready a.some_bytes (
                fill-full fuel _ t.shared
                  (omega (
                    arith,
                    ap length f.fed,
                    length-append f.bytes (left t.state),
                    ap length f.hands.filled,
                  ))
                  f.holds))
        | inr e ↦ rw e refl
      ]

  module _ (header_size : Bytes → Option ℕ) (max : ℕ) (last : Option ℕ) (end tail : Bytes)
      (end_size : length end ≡ 512) where
    -- Behind a header boundary a whole block follows.
    block-ahead :
        (pax : Option ℕ) (ms : List Member)
        → Accepts header_size max pax ms last
        → 512 ≤ length (stream left header_size max last end tail ms)
    block-ahead pax [] accepts = omega (arith, length-append end tail)
    block-ahead pax (m ∷ ms) (size, nonzero, checked, more) = omega (
      arith,
      length-append m.header (m.body ++ bytes_of ms),
      length-append (m.header ++ (m.body ++ bytes_of ms)) (end ++ tail),
    )

    header-Moves :
        (g : HeaderGuard R) (sh : Shared) (n : ℕ) (todo : Bytes)
        → 0 < n
        → AtHeader left header_size max last end tail g todo
        → P g.inner sh
        → Moves (header_read header_size (fill poll 512 g sh) (empty_buf n))
    header-Moves g sh n todo some_room s p =
        let f = fill poll 512 g sh in
        let fills =
          fill-Fills poll left fed todo g 512 g sh
            (record {
              size = s.common.size;
              filled_le = s.filled_le;
              read = s.read;
              pax_size = refl;
              pax_body = refl;
              emitted = refl;
              data_remaining = refl;
              next_trailer = refl;
              trailer = refl;
              max = refl;
            })
            (omega arith) p in
        let r = fills.has_read in
        let enough : 512 ≤ g.filled + length (left g.inner) = omega (
          arith,
          block-ahead g.pax_size s.ms s.accepts,
          ap length s.todo_eq,
          ap length s.read,
          length-append (take g.filled g.header) (left g.inner),
          length-take g.filled g.header,
          s.filled_le,
        ) in
        header_read-Moves header_size f n some_room (fill-full 512 g sh enough p) r.size
          (omega (arith, r.emitted, s.unstarted))

    started-Moves :
        (g : HeaderGuard R) (sh : Shared) (n : ℕ)
        → 0 < n
        → g.filled ≡ 512
        → length g.header ≡ 512
        → g.emitted < 512
        → Moves (header_read header_size (fill poll 512 g sh) (empty_buf n))
    started-Moves g sh n some_room full size more =
        subst (λ f. Moves (header_read header_size f (empty_buf n))) (fill_full poll 512 g sh full)
          (header_read-Moves header_size (record { guard = g; shared = sh; returned = none }) n
            some_room refl size more)

    body-Moves :
        (g : HeaderGuard R) (sh : Shared) (n : ℕ) (todo : Bytes)
        → 0 < n
        → InBody left header_size max last end tail g todo
        → P g.inner sh
        → Moves (read_data poll g sh (empty_buf n))
    unfolding read_data
    body-Moves g sh n todo some_room s p =
        let b = empty_buf (min g.data_remaining (remaining (empty_buf n))) in
        let some_left = s.some_left in
        let a = eager g.inner sh b p (omega arith) (
          omega (
            arith,
            ap length s.read,
            s.remaining,
            length-append s.body (stream left header_size max last end tail s.ms),
          )) in
        data_read-Moves g n (poll g.inner sh b) _ a.is_ready a.some_bytes

    pub poll_guard-Moves :
        (g : HeaderGuard R) (sh : Shared) (n : ℕ) (todo : Bytes)
        → 0 < n
        → 0 < length todo
        → Tracks left header_size max last end tail g todo
        → P g.inner sh
        → Moves (poll_guard poll header_size g sh (empty_buf n))
    unfolding poll_guard
    poll_guard-Moves g sh n todo some_room some_todo (at_header s) p =
        let none_ : (remaining (empty_buf n) == 0) ≡ false = ground arith in
        let data_ : ltb 0 g.data_remaining ≡ false = ground (arith, s.no_data) in
        rw none_ (simp s.common.no_trailer (rw data_ (header-Moves g sh n todo some_room s p)))
    poll_guard-Moves g sh n todo some_room some_todo (sending s begun) p =
        let none_ : (remaining (empty_buf n) == 0) ≡ false = ground arith in
        let data_ : ltb 0 g.data_remaining ≡ false = ground (arith, s.no_data) in
        rw none_ (
          simp s.common.no_trailer
            (rw data_ (started-Moves g sh n some_room s.full s.common.size s.emitted_lt)))
    poll_guard-Moves g sh n todo some_room some_todo (closing s begun) p =
        let none_ : (remaining (empty_buf n) == 0) ≡ false = ground arith in
        let data_ : ltb 0 g.data_remaining ≡ false = ground (arith, s.no_data) in
        rw none_ (
          simp s.common.no_trailer
            (rw data_ (started-Moves g sh n some_room s.full s.common.size s.emitted_lt)))
    poll_guard-Moves g sh n todo some_room some_todo (in_body s) p =
        let none_ : (remaining (empty_buf n) == 0) ≡ false = ground arith in
        let data_ : ltb 0 g.data_remaining ≡ true = ground (arith, s.some_left) in
        rw none_ (simp s.common.no_trailer (rw data_ (body-Moves g sh n todo some_room s p)))
    poll_guard-Moves g sh n todo some_room some_todo (in_trailer s) p =
        let none_ : (remaining (empty_buf n) == 0) ≡ false = ground arith in
        let a =
          eager g.inner sh (empty_buf n) p (omega arith) (omega (arith, ap length s.todo_eq)) in
        rw none_ (simp s.in_trailer (inl a.some_bytes))

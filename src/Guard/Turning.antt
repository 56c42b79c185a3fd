-- ===== src/Guard/Turning.antt =====
-- The methods of `HeaderGuard` of src/guard.rs, each as such a turn.
use etar.Prelude.{
  ℕ, zero, suc, ◌+◌, ◌-◌, ◌≤◌, ◌≡◌, refl, sym, ap, ◌∙◌, false, Option, [], ◌++◌, append-nil,
  append_assoc, Bytes, length, take, drop, min, ◌==◌, ok, err, arith, Bool-cases, Option-cases, inl,
  inr, length-take, length-drop, take_all, drop-drop, take-append-drop,
}
use etar.Io.{Poll, pending, ready, ReadBuf, Shared, Turn, remaining, put_slice}
use etar.Io.Contract.{is_ready_ok}
use etar.Guard.{HeaderGuard, Outcome, inspect, end_data, feed_pax}
use etar.Guard.Reading.{Filling, data_read, emit, emit_inspected, header_read}
use etar.Guard.Framed.{
  SameFrame, end_data-SameFrame, inspect-SameFrame, feed_pax-SameFrame, held, IsShaped,
}
use etar.Guard.Filling.{InSync, IsSound, IsFilled}
use etar.Guard.Turned.{held-SameFrame, Turned, reframe, idle, IsSound-SameFrame}

drop-nil : (n : ℕ) → drop {A = ℕ} n [] ≡ []
drop-nil zero = refl
drop-nil (suc n) = refl

-- A piece of the header is handed out, and the rest is held.
emit-held :
    (h : Bytes) (f e n : ℕ)
    → f ≡ 512
    → length h ≡ 512
    → take n (drop e h) ++ drop (e + n) (take f h) ≡ drop e (take f h)
emit-held h f e n full size =
    rw (full, take_all 512 h (omega arith), drop-drop e n h) (take-append-drop n (drop e h))

emit-held_all :
    (h : Bytes) (f e n : ℕ)
    → f ≡ 512
    → length h ≡ 512
    → e + n ≡ 512
    → take n (drop e h) ≡ drop e (take f h)
emit-held_all h f e n full size ends =
    rw (full, take_all 512 h (omega arith)) (take_all n (drop e h) (omega (arith, length-drop e h)))

module _ {R : Type 0} (log : R → Bytes) (done : Bytes) where
  -- The reader under it was not ready, or failed: nothing was read.
  waiting-Turned :
      (g : HeaderGuard R) (out : ReadBuf) (t : Turn R) (p : Poll)
      → IsShaped g
      → InSync log done g
      → t.buf.filled ≡ []
      → log t.state ≡ log g.inner ++ t.buf.filled
      → Turned log done out
          (record { state = record g { inner = t.state }; shared = t.shared; buf = out; poll = p })
  waiting-Turned g out t p shaped sync none_read more =
      idle log done (record g { inner = t.state }) t.shared out p
        (record {
          size = shaped.size;
          filled_le = shaped.filled_le;
          emitted_lt = shaped.emitted_lt;
          started = shaped.started;
          in_data = shaped.in_data;
          in_trailer = shaped.in_trailer;
        })
        (sync
          ∙ (sym (append-nil (log g.inner))
              ∙ (ap (λ t. log g.inner ++ t) (sym none_read) ∙ sym more)))

  pub held-nil : (g : HeaderGuard R) → g.filled ≡ 0 → held g ≡ []
  held-nil g empty = ap (λ f. drop g.emitted (take f g.header)) empty ∙ drop-nil g.emitted

  pub done-eq-log : (g : HeaderGuard R) → InSync log done g → g.filled ≡ 0 → done ≡ log g.inner
  done-eq-log g sync empty =
      sym (append-nil done) ∙ (ap (λ h. done ++ h) (sym (held-nil g empty)) ∙ sync)

  emit-Turned :
      (g : HeaderGuard R) (sh : Shared) (out : ReadBuf)
      → IsSound log done g
      → g.filled ≡ 512
      → Turned log done out (emit g sh out)
  unfolding emit
  emit-Turned g sh out sound full =
      let n = min (remaining out) (512 - g.emitted) in
      let shaped = sound.header.shaped in
      let bs = take n (drop g.emitted g.header) in
      let out' = put_slice out bs in
      let size_bs : length bs ≤ remaining out =
        omega (arith, length-take n (drop g.emitted g.header)) in
      elim (Bool-cases (g.emitted + n == 512)) [
        | inl e ↦
            let next = record g {
              filled = 0;
              emitted = 0;
              data_remaining = g.next_data;
              next_data = 0;
              trailer = g.next_trailer;
            } in
            rw e (
              reframe log done next (end_data next).0 sh out' _ (end_data-SameFrame next) (record {
                bytes = bs;
                filled = refl;
                same_size = refl;
                fits = size_bs;
                shaped = record {
                  size = shaped.size;
                  filled_le = omega arith;
                  emitted_lt = omega arith;
                  started = λ h. absurd (omega arith);
                  in_data = λ _. refl;
                  in_trailer = λ _. refl;
                };
                sync =
                    append-nil (done ++ bs)
                    ∙ (ap (λ t. done ++ t)
                          (emit-held_all g.header g.filled g.emitted n full shaped.size
                            (ground arith))
                        ∙ sound.sync);
              }))
        | inr e ↦ rw e (record {
          bytes = bs;
          filled = refl;
          same_size = refl;
          fits = size_bs;
          shaped = record {
            size = shaped.size;
            filled_le = shaped.filled_le;
            emitted_lt = ground (arith, shaped.emitted_lt);
            started = λ _. full;
            in_data = shaped.in_data;
            in_trailer = shaped.in_trailer;
          };
          sync =
              append_assoc done bs _
              ∙ (ap (λ t. done ++ t) (emit-held g.header g.filled g.emitted n full shaped.size)
                  ∙ sound.sync);
        })
      ]

  emit_inspected-Turned :
      (g : HeaderGuard R) (o : Outcome R) (sh : Shared) (out : ReadBuf)
      → SameFrame g o.0
      → IsSound log done g
      → g.filled ≡ 512
      → Turned log done out (emit_inspected o sh out)
  unfolding emit_inspected
  emit_inspected-Turned g (g', ok u) sh out f sound full =
      emit-Turned g' sh out (IsSound-SameFrame log done g g' f sound) (f.filled ∙ full)
  emit_inspected-Turned g (g', err e) sh out f sound full =
      reframe log done g g' sh out _ f (idle log done g sh out _ sound.header.shaped sound.sync)

  pub header_read-Turned :
      (header_size : Bytes → Option ℕ) (f : Filling R) (out : ReadBuf)
      → IsFilled log done f
      → Turned log done out (header_read header_size f out)
  unfolding header_read
  header_read-Turned header_size f out filled = elim (Option-cases f.returned) [
    | inl e ↦ rw e (elim (Bool-cases (f.guard.emitted == 0)) [
      | inl start ↦ rw start (
          emit_inspected-Turned f.guard (inspect header_size f.guard) f.shared out
            (inspect-SameFrame f.guard header_size) filled.sound (filled.full e))
      | inr begun ↦ rw begun (emit-Turned f.guard f.shared out filled.sound (filled.full e))
    ])
    | inr (p, e) ↦
        rw e (idle log done f.guard f.shared out p filled.sound.header.shaped filled.sound.sync)
  ]

  pub data_read-Turned :
      (g : HeaderGuard R) (out : ReadBuf) (t : Turn R) (p : Poll)
      → IsShaped g
      → InSync log done g
      → g.filled ≡ 0
      → length t.buf.filled ≤ remaining out
      → log t.state ≡ log g.inner ++ t.buf.filled
      → (is_ready_ok p ≡ false → t.buf.filled ≡ [])
      → Turned log done out (data_read g out t p)
  unfolding data_read
  data_read-Turned g out t pending shaped sync empty room more quiet =
      waiting-Turned g out t pending shaped sync (quiet refl) more
  data_read-Turned g out t (ready (err e)) shaped sync empty room more quiet =
      waiting-Turned g out t (ready (err e)) shaped sync (quiet refl) more
  data_read-Turned g out t (ready (ok u)) shaped sync empty room more quiet =
      let bs = t.buf.filled in
      let read = record g { inner = t.state } in
      let fed = feed_pax read bs g.pax_body in
      let f = feed_pax-SameFrame read bs g.pax_body in
      let next = record fed { data_remaining = g.data_remaining - length bs } in
      reframe log done next (end_data next).0 t.shared (put_slice out bs) _
        (end_data-SameFrame next)
        (record {
          bytes = bs;
          filled = refl;
          same_size = refl;
          fits = room;
          shaped = record {
            size = ap length f.header ∙ shaped.size;
            filled_le = omega (arith, f.filled, empty);
            emitted_lt = omega (arith, f.emitted, shaped.emitted_lt);
            started = λ h.
                absurd (omega (arith, f.emitted, shaped.started (omega (arith, f.emitted)), empty));
            in_data = λ _. f.filled ∙ empty;
            in_trailer = λ _. f.filled ∙ empty;
          };
          sync =
              ap (λ h. (done ++ bs) ++ h) (held-SameFrame read fed f ∙ held-nil g empty)
              ∙ (append-nil (done ++ bs)
                  ∙ (ap (λ d. d ++ bs) (done-eq-log g sync empty)
                      ∙ (sym more ∙ ap log (sym f.inner))));
        })

-- ===== src/Guard/Filling.antt =====
-- The loop in `HeaderGuard::poll_read` of src/guard.rs that fills the header, and the fuel that it needs.
use etar.Prelude.{
  ℕ, zero, suc, ◌+◌, ◌-◌, ◌≤◌, ◌<◌, ◌≡◌, refl, sym, ap, ◌∙◌, Bool, true, false, none, [], ◌∷◌, ◌++◌,
  append-nil, append_assoc, Bytes, length, take, drop, ltb, ◌==◌, ok, err, arith, Bool-cases, inl,
  inr,
}
use etar.Io.{Poll, pending, ready, Shared, Turn, Poller, empty_buf}
use etar.Io.Contract.{is_ready_ok}
use etar.Io.Log.{IsLogged}
use etar.Guard.{HeaderGuard}
use etar.Guard.Reading.{overwrite, Filling, fill_read, fill}
use etar.Guard.Framed.{
  held, IsShaped, InHeader, overwrite-length, take-overwrite, overwrite_nil, Fresh,
}

module _ {R : Type 0} {poll : Poller R} {log : R → Bytes} (logged : IsLogged poll log) where
  pub poll-Fresh : (s : R) (sh : Shared) (n : ℕ) → Fresh log s n (poll s sh (empty_buf n))
  poll-Fresh s sh n =
      let l = logged s sh (empty_buf n) in
      record {
        fits = rw (l.hands.filled) (omega (arith, l.hands.fits));
        logged = l.logged ∙ ap (λ t. log s ++ t) (sym (l.hands.filled));
        quiet = λ q. l.hands.filled ∙ l.hands.quiet q;
      }

grow-held :
    (h bs : Bytes) (f e : ℕ)
    → e ≡ 0
    → f ≤ length h
    → drop e (take (f + length bs) (overwrite h f bs)) ≡ drop e (take f h) ++ bs
grow-held h bs f e start fits = rw (start, take-overwrite h f bs fits)

length-zero : (bs : Bytes) → length bs ≡ 0 → bs ≡ []
length-zero [] h = refl
length-zero (b ∷ bs) h = absurd (omega arith)

rest-held : (h bs : Bytes) (f : ℕ) → bs ≡ [] → overwrite h f bs ≡ h
rest-held h bs f e = rw e (overwrite_nil h f)

pub not_both {ℓ} : {A : Type ℓ} {b : Bool} → b ≡ false → b ≡ true → A
not_both f t = cc

pub unstarted : {R : Type 0} (g : HeaderGuard R) → IsShaped g → g.filled < 512 → g.emitted ≡ 0
unstarted g shaped h = ground (arith, shaped.started)

module _ {R : Type 0} (log : R → Bytes) (done : Bytes) where
  -- What has been handed out and what is held is what has been read.
  abbrev pub InSync : HeaderGuard R → Type 0
  InSync g = done ++ held g ≡ log g.inner

  -- In a header, in sync.
  pub record IsSound (g : HeaderGuard R) : Type 0 where
    pub header : InHeader g
    pub sync : InSync g

  -- Header bytes are read behind those that are there.
  grow-IsSound :
      (g : HeaderGuard R) (s : R) (bs : Bytes)
      → IsSound g
      → g.filled < 512
      → length bs ≤ 512 - g.filled
      → log s ≡ log g.inner ++ bs
      → IsSound (record g {
        inner = s;
        header = overwrite g.header g.filled bs;
        filled = g.filled + length bs;
      })
  grow-IsSound g s bs sound open_ fits more =
      let shaped = sound.header.shaped in
      let at_start = unstarted g shaped open_ in
      record {
        header = record {
          shaped = record {
            size = overwrite-length g.header g.filled bs shaped.size (omega arith);
            filled_le = omega arith;
            emitted_lt = shaped.emitted_lt;
            started = λ h. absurd (omega arith);
            in_data = λ h. absurd (omega (arith, sound.header.no_data));
            in_trailer = not_both sound.header.no_trailer;
          };
          no_data = sound.header.no_data;
          no_trailer = sound.header.no_trailer;
        };
        sync =
            ap (λ t. done ++ t) (grow-held g.header bs g.filled g.emitted at_start (omega arith))
            ∙ (sym (append_assoc done (held g) bs) ∙ (ap (λ t. t ++ bs) sound.sync ∙ sym more));
      }

  -- Nothing was read.
  rest-IsSound :
      (g : HeaderGuard R) (s : R) (bs : Bytes)
      → IsSound g
      → bs ≡ []
      → log s ≡ log g.inner ++ bs
      → IsSound (record g { inner = s; header = overwrite g.header g.filled bs })
  rest-IsSound g s bs sound none_ more =
      let shaped = sound.header.shaped in
      let same = rest-held g.header bs g.filled none_ in
      record {
        header = record {
          shaped = record {
            size = ap length same ∙ shaped.size;
            filled_le = shaped.filled_le;
            emitted_lt = shaped.emitted_lt;
            started = shaped.started;
            in_data = shaped.in_data;
            in_trailer = shaped.in_trailer;
          };
          no_data = sound.header.no_data;
          no_trailer = sound.header.no_trailer;
        };
        sync =
            ap (λ h. done ++ drop g.emitted (take g.filled h)) same
            ∙ (sound.sync
                ∙ (sym (append-nil (log g.inner))
                    ∙ (ap (λ t. log g.inner ++ t) (sym none_) ∙ sym more)));
      }

  -- The loop that fills the header.
  pub record IsFilled (f : Filling R) : Type 0 where
    pub sound : IsSound f.guard
    pub full : f.returned ≡ none → f.guard.filled ≡ 512

  fill_read-IsFilled :
      (more : HeaderGuard R → Shared → Filling R) (g : HeaderGuard R) (t : Turn R) (p : Poll)
      → ((g' : HeaderGuard R) (sh : Shared)
          → IsSound g'
          → g.filled < g'.filled
          → IsFilled (more g' sh))
      → (is_ready_ok p ≡ false → IsSound g)
      → (0 < length t.buf.filled → IsSound (record g { filled = g.filled + length t.buf.filled }))
      → (length t.buf.filled ≡ 0 → IsSound g)
      → IsFilled (fill_read more g t p)
  unfolding fill_read
  fill_read-IsFilled more g t pending next quiet grown rest = record {
    sound = quiet refl;
    full = λ h. cc;
  }
  fill_read-IsFilled more g t (ready (err e)) next quiet grown rest = record {
    sound = quiet refl;
    full = λ h. cc;
  }
  fill_read-IsFilled more g t (ready (ok u)) next quiet grown rest =
      elim (Bool-cases (length t.buf.filled == 0)) [
        | inl e ↦ rw e (record { sound = rest (ground arith); full = λ h. cc })
        | inr e ↦ rw e (next _ t.shared (grown (ground arith)) (ground arith))
      ]

module _ {R : Type 0} (poll : Poller R) (log : R → Bytes) (logged : IsLogged poll log)
    (done : Bytes) where
  -- Enough rounds are given: the loop ends with a poll to return, or with the header full.
  pub fill-IsFilled :
      (fuel : ℕ) (g : HeaderGuard R) (sh : Shared)
      → IsSound log done g
      → 512 ≤ g.filled + fuel
      → IsFilled log done (fill poll fuel g sh)
  unfolding fill
  fill-IsFilled zero g sh sound enough = record {
    sound = sound;
    full = λ _. omega (arith, sound.header.shaped.filled_le);
  }
  fill-IsFilled (suc fuel) g sh sound enough =
      let t = poll g.inner sh (empty_buf (512 - g.filled)) in
      let fresh = poll-Fresh logged g.inner sh (512 - g.filled) in
      let bs = t.buf.filled in
      elim (Bool-cases (ltb g.filled 512)) [
        | inl e ↦ rw e (
            fill_read-IsFilled log done (fill poll fuel)
              (record g { inner = t.state; header = overwrite g.header g.filled bs }) t t.poll
              (λ g' sh' s' more. fill-IsFilled fuel g' sh' s' (omega arith))
              (λ q. rest-IsSound log done g t.state bs sound (fresh.quiet q) fresh.logged)
              (λ some_.
                grow-IsSound log done g t.state bs sound (ground arith) fresh.fits fresh.logged)
              (λ z. rest-IsSound log done g t.state bs sound (length-zero bs z) fresh.logged))
        | inr e ↦
            rw e
              (record { sound = sound; full = λ _. ground (arith, sound.header.shaped.filled_le) })
      ]

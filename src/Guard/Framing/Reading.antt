-- ===== src/Guard/Framing/Reading.antt =====
-- The loop in `HeaderGuard::poll_read` of src/guard.rs that fills the header, over a reader that is
-- known to the end.
use etar.Prelude.{
  ℕ, zero, suc, ◌+◌, ◌-◌, ◌≤◌, ◌<◌, ◌≡◌, refl, ap, sym, ◌∙◌, subst, false, Option, none, some, ◌++◌,
  append_assoc, Bytes, length, take, ltb, ◌==◌, ok, err, inl, inr, arith, Bool-cases,
}
use etar.Io.{Poll, pending, ready, Shared, Turn, Poller, empty_buf}
use etar.Io.Contract.{is_ready_ok, is_error}
use etar.Guard.{HeaderGuard}
use etar.Guard.Framed.{overwrite-length, take-overwrite}
use etar.Guard.Reading.{overwrite, Filling, fill_read, fill}
use etar.Guard.Framing.{IsFed}

-- The poll that is returned.
some_poll : (p q : Poll) → ◌≡◌ {A = Option Poll} (some p) (some q) → q ≡ p
some_poll p q h = cc

module _ {R : Type 0} (left : R → Bytes) (todo : Bytes) (start : HeaderGuard R) where
  -- The guard differs from `start` in what it has read of the header; `todo` is that and what is left.
  pub record HasRead (g : HeaderGuard R) : Type 0 where
    pub size : length g.header ≡ 512
    pub filled_le : g.filled ≤ 512
    pub read : take g.filled g.header ++ left g.inner ≡ todo
    pub pax_size : g.pax_size ≡ start.pax_size
    pub pax_body : g.pax_body ≡ start.pax_body
    pub emitted : g.emitted ≡ start.emitted
    pub data_remaining : g.data_remaining ≡ start.data_remaining
    pub next_trailer : g.next_trailer ≡ start.next_trailer
    pub trailer : g.trailer ≡ start.trailer
    pub max : g.max_metadata_bytes ≡ start.max_metadata_bytes

  pub record Fills (f : Filling R) : Type 0 where
    pub has_read : HasRead f.guard
    pub full : f.returned ≡ none → f.guard.filled ≡ 512
    pub no_error : (p : Poll) → f.returned ≡ some p → is_error p ≡ false

  -- The guard with `bs` behind what it has read.
  grow-HasRead :
      (g : HeaderGuard R) (s : R) (bs : Bytes)
      → HasRead g
      → length bs ≤ 512 - g.filled
      → left g.inner ≡ bs ++ left s
      → HasRead (record g {
        inner = s;
        header = overwrite g.header g.filled bs;
        filled = g.filled + length bs;
      })
  grow-HasRead g s bs h fits fed = record {
    size = overwrite-length g.header g.filled bs h.size (omega (arith, h.filled_le));
    filled_le = omega (arith, h.filled_le);
    read =
        ap (λ x. x ++ left s)
          (take-overwrite g.header g.filled bs (omega (arith, h.filled_le, h.size)))
        ∙ (append_assoc (take g.filled g.header) bs (left s)
            ∙ (ap (λ x. take g.filled g.header ++ x) (sym fed) ∙ h.read));
    pax_size = h.pax_size;
    pax_body = h.pax_body;
    emitted = h.emitted;
    data_remaining = h.data_remaining;
    next_trailer = h.next_trailer;
    trailer = h.trailer;
    max = h.max;
  }

  fill_read-Fills :
      (more : HeaderGuard R → Shared → Filling R) (g : HeaderGuard R) (t : Turn R) (p : Poll)
      → (0 < length t.buf.filled
          → Fills (more (record g { filled = g.filled + length t.buf.filled }) t.shared))
      → (is_ready_ok p ≡ false → length t.buf.filled ≡ 0)
      → HasRead (record g { filled = g.filled + length t.buf.filled })
      → is_error p ≡ false
      → Fills (fill_read more g t p)
  unfolding fill_read
  fill_read-Fills more g t pending next quiet h calm = record {
    has_read = subst (λ n. HasRead (record g { filled = n })) (omega (arith, quiet refl)) h;
    full = λ e. cc;
    no_error = λ q e. ap is_error (some_poll pending q e);
  }
  fill_read-Fills more g t (ready (err e)) next quiet h calm = cc
  fill_read-Fills more g t (ready (ok u)) next quiet h calm =
      elim (Bool-cases (length t.buf.filled == 0)) [
        | inl e ↦ rw e (record {
          has_read = subst (λ n. HasRead (record g { filled = n })) (ground arith) h;
          full = λ q. cc;
          no_error = λ q e'. ap is_error (some_poll (ready (ok tt)) q e');
        })
        | inr e ↦ rw e (next (ground arith))
      ]

module _ {R : Type 0} {P : R → Shared → Type 0} (poll : Poller R) (left : R → Bytes)
    (fed : IsFed P poll left) (todo : Bytes) (start : HeaderGuard R) where
  pub fill-Fills :
      (fuel : ℕ) (g : HeaderGuard R) (sh : Shared)
      → HasRead left todo start g
      → 512 ≤ g.filled + fuel
      → P g.inner sh
      → Fills left todo start (fill poll fuel g sh)
  unfolding fill
  fill-Fills zero g sh h enough p = record {
    has_read = h;
    full = λ _. omega (arith, h.filled_le);
    no_error = λ q e. cc;
  }
  fill-Fills (suc fuel) g sh h enough p =
      let b = empty_buf (512 - g.filled) in
      let t = poll g.inner sh b in
      let f = fed g.inner sh b p in
      let same = f.hands.filled in
      let grown =
        grow-HasRead left todo start g t.state t.buf.filled h
          (rw same (omega (arith, f.hands.fits)))
          (f.fed ∙ ap (λ x. x ++ left t.state) (sym same)) in
      let read = record g { inner = t.state; header = overwrite g.header g.filled t.buf.filled } in
      elim (Bool-cases (ltb g.filled 512)) [
        | inl e ↦ rw e (
            fill_read-Fills left todo start (fill poll fuel) read t t.poll
              (λ some_. fill-Fills fuel _ t.shared grown (omega arith) f.holds)
              (λ q. ap length (same ∙ f.hands.quiet q)) grown f.no_error)
        | inr e ↦ rw e (record {
          has_read = h;
          full = λ _. ground (arith, h.filled_le);
          no_error = λ q e'. cc;
        })
      ]

-- The header is full already.
pub fill_full :
    {R : Type 0} (poll : Poller R) (fuel : ℕ) (g : HeaderGuard R) (sh : Shared)
    → g.filled ≡ 512
    → record { guard = g; shared = sh; returned = none } ≡ fill poll fuel g sh
unfolding fill
fill_full poll zero g sh full = refl
fill_full poll (suc fuel) g sh full = ground arith

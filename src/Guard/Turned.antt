-- ===== src/Guard/Turned.antt =====
-- A turn of `HeaderGuard` of src/guard.rs that keeps its bytes in order.
use etar.Prelude.{
  ◌≤◌, ◌≡◌, refl, sym, ap, ◌∙◌, [], ◌++◌, append-nil, Bytes, length, take, drop, ok, arith,
}
use etar.Io.{Poll, ready, ReadBuf, Shared, Turn, remaining}
use etar.Guard.{HeaderGuard}
use etar.Guard.Framed.{SameFrame, held, IsShaped}
use etar.Guard.Filling.{InSync, IsSound}

shape-SameFrame : {R : Type 0} (g g' : HeaderGuard R) → SameFrame g g' → IsShaped g → IsShaped g'
shape-SameFrame g g' f s = record {
  size = ap length f.header ∙ s.size;
  filled_le = omega (arith, f.filled, s.filled_le);
  emitted_lt = omega (arith, f.emitted, s.emitted_lt);
  started = λ h. f.filled ∙ s.started (omega (arith, f.emitted));
  in_data = λ h. f.filled ∙ s.in_data (omega (arith, f.data_remaining));
  in_trailer = λ h. f.filled ∙ s.in_trailer (sym f.trailer ∙ h);
}

pub held-SameFrame : {R : Type 0} (g g' : HeaderGuard R) → SameFrame g g' → held g' ≡ held g
held-SameFrame g g' f = λ i. drop (f.emitted i) (take (f.filled i) (f.header i))

module _ {R : Type 0} (log : R → Bytes) (done : Bytes) where
  -- A turn hands out bytes, and keeps shape and sync.
  pub record Turned (b : ReadBuf) (t : Turn (HeaderGuard R)) : Type 0 where
    pub bytes : Bytes
    pub filled : t.buf.filled ≡ b.filled ++ bytes
    pub same_size : t.buf.capacity ≡ b.capacity
    pub fits : length bytes ≤ remaining b
    pub shaped : IsShaped t.state
    pub sync : InSync log (done ++ bytes) t.state

  -- The state may be changed by what leaves the frame alone.
  pub reframe :
      {b : ReadBuf} (g g' : HeaderGuard R) (sh : Shared) (out : ReadBuf) (p : Poll)
      → SameFrame g g'
      → Turned b (record { state = g; shared = sh; buf = out; poll = ready (ok tt) })
      → Turned b (record { state = g'; shared = sh; buf = out; poll = p })
  reframe g g' sh out p f t = record {
    bytes = t.bytes;
    filled = t.filled;
    same_size = t.same_size;
    fits = t.fits;
    shaped = shape-SameFrame g g' f t.shaped;
    sync =
        ap (λ h. (done ++ t.bytes) ++ h) (held-SameFrame g g' f) ∙ (t.sync ∙ ap log (sym f.inner));
  }

  pub idle :
      (g : HeaderGuard R) (sh : Shared) (out : ReadBuf) (p : Poll)
      → IsShaped g
      → InSync log done g
      → Turned out (record { state = g; shared = sh; buf = out; poll = p })
  idle g sh out p shaped sync = record {
    bytes = [];
    filled = sym (append-nil out.filled);
    same_size = refl;
    fits = omega arith;
    shaped = shaped;
    sync = ap (λ d. d ++ held g) (append-nil done) ∙ sync;
  }

pub IsSound-SameFrame :
    {R : Type 0} (log : R → Bytes) (done : Bytes) (g g' : HeaderGuard R)
    → SameFrame g g'
    → IsSound log done g
    → IsSound log done g'
IsSound-SameFrame log done g g' f s = record {
  header = record {
    shaped = shape-SameFrame g g' f s.header.shaped;
    no_data = f.data_remaining ∙ s.header.no_data;
    no_trailer = f.trailer ∙ s.header.no_trailer;
  };
  sync = ap (λ h. done ++ h) (held-SameFrame g g' f) ∙ (s.sync ∙ ap log (sym f.inner));
}

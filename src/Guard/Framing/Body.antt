-- ===== src/Guard/Framing/Body.antt =====
-- `HeaderGuard::read_data` of src/guard.rs in the data of a member.
use etar.Prelude.{
  ℕ, zero, suc, ◌-◌, ◌≤◌, ◌≡◌, refl, ap, sym, ◌∙◌, subst, false, Option, none, some, [], ◌∷◌, ◌++◌,
  append_assoc, Bytes, length, length-append, take, min, ok, err, inl, inr, arith,
}
use etar.Io.{Poll, pending, ready, Turn, empty_buf}
use etar.Io.Contract.{is_ready_ok, is_error}
use etar.Guard.{HeaderGuard, feed_pax}
use etar.Guard.Framed.{feed_pax-SameFrame}
use etar.Guard.Reading.{data_read}
use etar.Guard.Pax.{parse_pax_size}
use etar.Guard.Framing.Inspecting.{PaxPending}
use etar.Guard.Framing.Phases.{InBody, in_body, Goes, end_data-Tracks}

-- Of two ways to cut a list, the shorter front is a front of the longer one.
pub prefix-cases :
    (xs ys zs ws : Bytes)
    → xs ++ ys ≡ zs ++ ws
    → length xs ≤ length zs
    → (m : Bytes) × (zs ≡ xs ++ m) × (ys ≡ m ++ ws)
prefix-cases [] ys zs ws e fits = (zs, refl, e)
prefix-cases (x ∷ xs) ys [] ws e fits = absurd (omega arith)
prefix-cases (x ∷ xs) ys (z ∷ zs) ws e fits =
    let tails : xs ++ ys ≡ zs ++ ws = cc in
    let (m, a, b) = prefix-cases xs ys zs ws tails (omega arith) in (m, cc, b)

-- The rest of a PAX body, after some of the data have been read.
take-feed :
    (r : ℕ) (xs ys : Bytes)
    → take (min (length xs) r) xs ++ take (r - min (length xs) r) ys ≡ take r (xs ++ ys)
take-feed zero [] ys = refl
take-feed (suc r) [] ys =
    let none_ : min 0 (suc r) ≡ 0 = omega arith in
    let all : suc r - min 0 (suc r) ≡ suc r = omega arith in rw (all, none_) refl
take-feed zero (x ∷ xs) ys = let none_ : min (suc (length xs)) 0 ≡ 0 = omega arith in rw none_ refl
take-feed (suc r) (x ∷ xs) ys =
    let more : min (suc (length xs)) (suc r) ≡ suc (min (length xs) r) = omega arith in
    let rest : suc r - min (suc (length xs)) (suc r) ≡ r - min (length xs) r = omega arith in
    rw (rest, more) (ap (λ t. x ∷ t) (take-feed r xs ys))

module _ {R : Type 0} where
  feed_pax-PaxPending :
      (g : HeaderGuard R) (bs m : Bytes) (o : Option Bytes) {next : Option ℕ}
      → g.pax_body ≡ o
      → PaxPending g (bs ++ m) next
      → PaxPending (feed_pax g bs o) m next
  unfolding feed_pax
  feed_pax-PaxPending g bs m none e (inl (none_, size)) = inl (e, size)
  feed_pax-PaxPending g bs m none e (inr (b, some_, p)) = absurd (ground (arith, e, some_))
  feed_pax-PaxPending g bs m (some body) e (inl (none_, size)) = absurd (ground (arith, e, none_))
  feed_pax-PaxPending g bs m (some body) e (inr (b, some_, p)) =
      let k = min (length bs) g.pax_remaining in
      let same : body ≡ b = cc (e, some_) in
      inr (
        body ++ take k bs,
        refl,
        ap parse_pax_size (
              append_assoc body (take k bs) (take (g.pax_remaining - k) m)
              ∙ (ap (λ x. body ++ x) (take-feed g.pax_remaining bs m)
                  ∙ ap (λ x. x ++ take g.pax_remaining (bs ++ m)) same))
            ∙ p,
      )

  feed_pax-rest :
      (g : HeaderGuard R) (bs : Bytes) (o : Option Bytes)
      → ((feed_pax g bs o).next_trailer ≡ g.next_trailer)
        × ((feed_pax g bs o).max_metadata_bytes ≡ g.max_metadata_bytes)
  unfolding feed_pax
  feed_pax-rest g bs none = (refl, refl)
  feed_pax-rest g bs (some body) = (refl, refl)

module _ {R : Type 0} (left : R → Bytes) (header_size : Bytes → Option ℕ) (max : ℕ)
    (last : Option ℕ) (end tail : Bytes) where
  pub data_read-Goes :
      (g : HeaderGuard R) (n : ℕ) (todo : Bytes) (t : Turn R) (p : Poll)
      → InBody left header_size max last end tail g todo
      → left g.inner ≡ t.buf.filled ++ left t.state
      → length t.buf.filled ≤ g.data_remaining
      → (is_ready_ok p ≡ false → t.buf.filled ≡ [])
      → is_error p ≡ false
      → Goes left header_size max last end tail todo (data_read g (empty_buf n) t p)
  unfolding data_read
  data_read-Goes g n todo t pending s fed fits quiet calm = record {
    rest = todo;
    handed = refl;
    tracks = in_body (record {
      common = record {
        size = s.common.size;
        no_trailer = s.common.no_trailer;
        same_max = s.common.same_max;
      };
      body = s.body;
      ms = s.ms;
      next = s.next;
      accepts = s.accepts;
      empty = s.empty;
      unstarted = s.unstarted;
      no_end = s.no_end;
      remaining = s.remaining;
      some_left = s.some_left;
      pax = s.pax;
      read = ap (λ x. x ++ left t.state) (sym (quiet refl)) ∙ (sym fed ∙ s.read);
      todo_eq = s.todo_eq ∙ (fed ∙ ap (λ x. x ++ left t.state) (quiet refl));
    });
    calm = refl;
  }
  data_read-Goes g n todo t (ready (err e)) s fed fits quiet calm = cc
  data_read-Goes g n todo t (ready (ok u)) s fed fits quiet calm =
      let bs = t.buf.filled in
      let read = record g { inner = t.state } in
      let f = feed_pax-SameFrame read bs g.pax_body in
      let (same_end, same_max) = feed_pax-rest read bs g.pax_body in
      let next = record (feed_pax read bs g.pax_body) {
        data_remaining = g.data_remaining - length bs;
      } in
      let (m, cut, after) =
        prefix-cases bs (left t.state) s.body _ (sym fed ∙ s.read) (omega (arith, s.remaining)) in
      let (fine, tracks) =
        end_data-Tracks left header_size max last end tail next m s.ms s.next
          (record {
            size = ap length f.header ∙ s.common.size;
            no_trailer = f.trailer ∙ s.common.no_trailer;
            same_max = same_max ∙ s.common.same_max;
          })
          s.accepts (f.filled ∙ s.empty) (f.emitted ∙ s.unstarted) (same_end ∙ s.no_end)
          (omega (arith, s.remaining, ap length cut, length-append bs m))
          (feed_pax-PaxPending read bs m g.pax_body refl
            (subst (λ x. PaxPending read x s.next) cut s.pax))
          (ap left f.inner ∙ after) in
      record {
        rest = left next.inner;
        handed = s.todo_eq ∙ (fed ∙ ap (λ x. bs ++ left x) (sym f.inner));
        tracks = tracks;
        calm = rw fine refl;
      }

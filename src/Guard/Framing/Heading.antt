-- ===== src/Guard/Framing/Heading.antt =====
-- `HeaderGuard::poll_read` of src/guard.rs behind a full header that has not been inspected.
use etar.Prelude.{
  ℕ, ◌<◌, ◌≡◌, refl, ap, sym, ◌∙◌, subst, true, false, Option, none, List, [], ◌∷◌, ◌++◌,
  append_assoc, append-nil, Bytes, length, length-append, drop, ok, err, ◌>>=◌, ◌⊎◌, inl, inr,
  arith,
}
use etar.Errors.{IoError}
use etar.Io.{ready, ReadBuf, Shared, Turn, empty_buf}
use etar.Guard.{HeaderGuard, Outcome, inspect, is_zero_block}
use etar.Guard.Framed.{inspect-SameFrame}
use etar.Guard.Reading.{emit, emit_inspected, return}
use etar.Guard.Framing.{Member, bytes_of, check_header, pax_behind, Accepts}
use etar.Guard.Framing.Body.{prefix-cases}
use etar.Guard.Framing.Inspecting.{
  inspect-checked, inspect-next_data, inspect-frame, inspect-PaxPending,
}
use etar.Guard.Framing.Phases.{Common, Goes, Refuses, stream}
use etar.Guard.Framing.Sending.{emit-Sending, emit-Closing}

-- Two fronts of one length are equal, and so is what follows.
pub same_front :
    (xs ys zs ws : Bytes) → xs ++ ys ≡ zs ++ ws → length xs ≡ length zs → (xs ≡ zs) × (ys ≡ ws)
same_front xs ys zs ws e same =
    let (m, a, b) = prefix-cases xs ys zs ws e (omega arith) in
    let none_ = no_bytes m (omega (arith, ap length a, length-append xs m)) in
    (sym (a ∙ (ap (λ x. xs ++ x) none_ ∙ append-nil xs)), b ∙ ap (λ x. x ++ ws) none_)
  where
    no_bytes : (m : Bytes) → length m ≡ 0 → m ≡ []
    no_bytes [] h = refl
    no_bytes (b ∷ m) h = absurd (omega arith)

module _ {R : Type 0} where
  emit_inspected-ok :
      (o : Outcome R) (sh : Shared) (out : ReadBuf)
      → o.1 ≡ ok tt
      → emit o.0 sh out ≡ emit_inspected o sh out
  unfolding emit_inspected
  emit_inspected-ok (g, ok u) sh out h = refl
  emit_inspected-ok (g, err e) sh out h = cc

  emit_inspected-err :
      (o : Outcome R) (sh : Shared) (out : ReadBuf) {e : IoError}
      → o.1 ≡ err e
      → return o.0 sh out (ready (err e)) ≡ emit_inspected o sh out
  unfolding emit_inspected
  emit_inspected-err (g, ok u) sh out h = cc
  emit_inspected-err (g, err x) sh out h = cc

  inspect-zero :
      (header_size : Bytes → Option ℕ) (g : HeaderGuard R)
      → is_zero_block g.header ≡ true
      → inspect header_size g ≡ (record g { next_trailer = true }, ok tt)
  unfolding inspect
  inspect-zero header_size g zero_ = rw zero_

module _ {R : Type 0} (left : R → Bytes) (header_size : Bytes → Option ℕ) (max : ℕ)
    (last : Option ℕ) (end tail : Bytes) where
  -- What follows the members: the zero blocks, or a block that is refused.
  abbrev pub Ends : Type 0
  Ends =
      (is_zero_block end ≡ true)
      ⊎ ((is_zero_block end ≡ false)
          × ((e : IoError) × (check_header header_size max last end ≡ err e)))

  abbrev Headed : Bytes → Turn (HeaderGuard R) → Type 0
  Headed todo t =
      Goes left header_size max last end tail todo t
      ⊎ Refuses left header_size max last end tail todo t

  module _ (g : HeaderGuard R) (sh : Shared) (n : ℕ) (todo : Bytes) (some_room : 0 < n)
      (c : Common left header_size max last end tail g) (unstarted : g.emitted ≡ 0)
      (full : g.filled ≡ 512) (no_data : g.data_remaining ≡ 0) (no_end : g.next_trailer ≡ false)
      (no_body : g.pax_body ≡ none) (read : g.header ++ left g.inner ≡ todo) where
    whole : todo ≡ drop g.emitted g.header ++ left g.inner
    whole = sym read ∙ ap (λ e. drop e g.header ++ left g.inner) (sym unstarted)

    heading-zero :
        is_zero_block g.header ≡ true
        → is_zero_block end ≡ true
        → Goes left header_size max last end tail todo
            (emit_inspected (inspect header_size g) sh (empty_buf n))
    heading-zero zero_ zero_end =
        let g' = record g { next_trailer = true } in
        subst
          (λ o. Goes left header_size max last end tail todo (emit_inspected o sh (empty_buf n)))
          (sym (inspect-zero header_size g zero_))
          (subst (Goes left header_size max last end tail todo)
            (emit_inspected-ok (g', ok tt) sh (empty_buf n) refl)
            (emit-Closing left header_size max last end tail g' sh n todo some_room (record {
              common = record { size = c.size; no_trailer = c.no_trailer; same_max = c.same_max };
              zero_end = zero_end;
              full = full;
              emitted_lt = omega (arith, unstarted);
              no_data = no_data;
              at_end = refl;
              no_body = no_body;
              todo_eq = whole;
            })))

    heading-member :
        (m : Member) (ms : List Member) (next : Option ℕ)
        → g.header ≡ m.header
        → left g.inner ≡ m.body ++ stream left header_size max last end tail ms
        → is_zero_block m.header ≡ false
        → check_header header_size max g.pax_size m.header ≡ ok (length m.body)
        → pax_behind header_size max g.pax_size m ≡ ok next
        → Accepts header_size max next ms last
        → Goes left header_size max last end tail todo
            (emit_inspected (inspect header_size g) sh (empty_buf n))
    heading-member m ms next same behind nonzero checked pax accepts =
        let o = inspect header_size g in
        let f = inspect-SameFrame g header_size in
        let (same_max, same_end) = inspect-frame header_size g in
        let nz : is_zero_block g.header ≡ false = ap is_zero_block same ∙ nonzero in
        let ch : check_header header_size g.max_metadata_bytes g.pax_size g.header
            ≡ ok (length m.body) =
          (λ i. check_header header_size (c.same_max i) g.pax_size (same i)) ∙ checked in
        let accepted : o.1 ≡ ok tt =
          inspect-checked header_size g nz ∙ ap (λ r. r >>= λ _. ok tt) ch in
        subst (Goes left header_size max last end tail todo)
          (emit_inspected-ok o sh (empty_buf n) accepted)
          (emit-Sending left header_size max last end tail o.0 sh n todo some_room (record {
            common = record {
              size = ap length f.header ∙ c.size;
              no_trailer = f.trailer ∙ c.no_trailer;
              same_max = same_max ∙ c.same_max;
            };
            body = m.body;
            ms = ms;
            next = next;
            accepts = accepts;
            full = f.filled ∙ full;
            emitted_lt = omega (arith, f.emitted, unstarted);
            no_data = f.data_remaining ∙ no_data;
            no_end = same_end nz ∙ no_end;
            long = inspect-next_data header_size g nz ch;
            pax = inspect-PaxPending header_size g m.body nz no_body ch (
                (λ i.
                  pax_behind header_size (c.same_max i) g.pax_size
                    (record { header = same i; body = m.body }))
                ∙ pax);
            read = ap left f.inner ∙ behind;
            todo_eq = whole ∙ sym (λ i. drop (f.emitted i) (f.header i) ++ left (f.inner i));
          }))

    heading-end :
        Ends
        → g.pax_size ≡ last
        → todo ≡ end ++ tail
        → length end ≡ 512
        → Headed todo (emit_inspected (inspect header_size g) sh (empty_buf n))
    heading-end (inl zero_end) pax at_end size =
        let (same, behind) =
          same_front g.header (left g.inner) end tail (read ∙ at_end) (c.size ∙ sym size) in
        inl (heading-zero (ap is_zero_block same ∙ zero_end) zero_end)
    heading-end (inr (nonzero, (e, refused))) pax at_end size =
        let (same, behind) =
          same_front g.header (left g.inner) end tail (read ∙ at_end) (c.size ∙ sym size) in
        let o = inspect header_size g in
        let refuses : o.1 ≡ err e =
          inspect-checked header_size g (ap is_zero_block same ∙ nonzero)
          ∙ ap (λ r. r >>= λ _. ok tt)
              ((λ i. check_header header_size (c.same_max i) (pax i) (same i)) ∙ refused) in
        inr (
          subst (Refuses left header_size max last end tail todo)
            (emit_inspected-err o sh (empty_buf n) refuses)
            (record {
              error = e;
              polled = refl;
              nonzero = nonzero;
              refused = refused;
              nothing = refl;
              at_end = at_end;
            }))

    pub heading :
        (ms : List Member)
        → Ends
        → length end ≡ 512
        → Accepts header_size max g.pax_size ms last
        → todo ≡ stream left header_size max last end tail ms
        → Headed todo (emit_inspected (inspect header_size g) sh (empty_buf n))
    heading [] ends size accepts todo_eq = heading-end ends accepts todo_eq size
    heading (m ∷ ms) ends size (long, nonzero, checked, (next, pax, accepts)) todo_eq =
        let (same, behind) =
          same_front g.header (left g.inner) m.header
            (m.body ++ stream left header_size max last end tail ms)
            (read
              ∙ (todo_eq
                  ∙ (append_assoc m.header (m.body ++ bytes_of ms) (end ++ tail)
                      ∙ ap (λ x. m.header ++ x) (append_assoc m.body (bytes_of ms) (end ++ tail)))))
            (c.size ∙ sym long) in
        inl (heading-member m ms next same behind nonzero checked pax accepts)

-- ===== src/Guard/Framing/Follows.antt =====
-- Sequences of polls of `HeaderGuard` of src/guard.rs over a stream of members.
use etar.Prelude.{
  ◌+◌, ℕ, ◌<◌, ◌≡◌, refl, ap, sym, ◌∙◌, subst, true, false, Option, ◌++◌, Bytes, length, take, min,
  ltb, ◌==◌, ◌⊎◌, inl, inr, arith, Bool-cases, Option-cases, take_all,
}
use etar.Io.{Shared, Turn, Poller, remaining, empty_buf}
use etar.Guard.{HeaderGuard}
use etar.Guard.Reading.{fill, emit, header_read, read_data, poll_guard}
use etar.Guard.Framing.{Accepts, IsFed}
use etar.Guard.Keeps.{poll_guard-Holds}
use etar.Guard.Framing.Body.{data_read-Goes}
use etar.Guard.Framing.Heading.{Ends, heading}
use etar.Guard.Framing.Phases.{
  Common, AtHeader, InBody, Tracks, at_header, sending, closing, in_body, in_trailer, Goes, Refuses,
}
use etar.Guard.Framing.Reading.{fill-Fills, fill_full}
use etar.Guard.Framing.Sending.{emit-Sending, emit-Closing}

module _ {R : Type 0} {P : R → Shared → Type 0} (poll : Poller R) (left : R → Bytes)
    (fed : IsFed P poll left) (header_size : Bytes → Option ℕ) (max : ℕ) (last : Option ℕ)
    (end tail : Bytes) (ends : Ends left header_size max last end tail)
    (end_size : length end ≡ 512) where
  abbrev Stepped : Bytes → Turn (HeaderGuard R) → Type 0
  Stepped todo t =
      Goes left header_size max last end tail todo t
      ⊎ Refuses left header_size max last end tail todo t

  -- A header that is being handed out.
  sending-Stepped :
      (g : HeaderGuard R) (sh : Shared) (n : ℕ) (todo : Bytes)
      → g.filled ≡ 512
      → 0 < g.emitted
      → Goes left header_size max last end tail todo (emit g sh (empty_buf n))
      → Stepped todo (header_read header_size (fill poll 512 g sh) (empty_buf n))
  unfolding header_read
  sending-Stepped g sh n todo full begun goes =
      let e : (g.emitted == 0) ≡ false = ground arith in
      subst (λ f. Stepped todo (header_read header_size f (empty_buf n)))
        (fill_full poll 512 g sh full) (rw e (inl goes))

  reading-Stepped :
      (g : HeaderGuard R) (sh : Shared) (n : ℕ) (todo : Bytes)
      → 0 < n
      → AtHeader left header_size max last end tail g todo
      → P g.inner sh
      → Stepped todo (header_read header_size (fill poll 512 g sh) (empty_buf n))
  unfolding header_read
  reading-Stepped g sh n todo some_room s holds =
      let f = fill poll 512 g sh in
      let fills =
        fill-Fills poll left fed todo g 512 g sh
          (record {
            size = s.common.size;
            filled_le = s.filled_le;
            read = s.read;
            pax_size = refl;
            pax_body = refl;
            emitted = refl;
            data_remaining = refl;
            next_trailer = refl;
            trailer = refl;
            max = refl;
          })
          (omega arith) holds in
      let r = fills.has_read in
      let c : Common left header_size max last end tail f.guard = record {
        size = r.size;
        no_trailer = r.trailer ∙ s.common.no_trailer;
        same_max = r.max ∙ s.common.same_max;
      } in
      let accepts : Accepts header_size max f.guard.pax_size s.ms last =
        subst (λ p. Accepts header_size max p s.ms last) (sym r.pax_size) s.accepts in
      elim (Option-cases f.returned) [
        | inr (p, e) ↦ rw e (
            inl (record {
              rest = todo;
              handed = refl;
              tracks = at_header (record {
                common = c;
                ms = s.ms;
                accepts = accepts;
                todo_eq = s.todo_eq;
                filled_le = r.filled_le;
                unstarted = r.emitted ∙ s.unstarted;
                no_data = r.data_remaining ∙ s.no_data;
                no_end = r.next_trailer ∙ s.no_end;
                no_body = r.pax_body ∙ s.no_body;
                read = r.read;
              });
              calm = fills.no_error p e;
            }))
        | inl e ↦
            let unstarted = r.emitted ∙ s.unstarted in
            let start : (f.guard.emitted == 0) ≡ true = ground (arith, unstarted) in
            let full = fills.full e in
            rw (e, start)
              (heading left header_size max last end tail f.guard f.shared n todo some_room c
                unstarted full (r.data_remaining ∙ s.no_data) (r.next_trailer ∙ s.no_end)
                (r.pax_body ∙ s.no_body)
                (ap (λ h. h ++ left f.guard.inner)
                    (sym (
                      ap (λ k. take k f.guard.header) full
                      ∙ take_all 512 f.guard.header (omega (arith, r.size))))
                  ∙ r.read)
                s.ms ends end_size accepts s.todo_eq)
      ]

  body-Stepped :
      (g : HeaderGuard R) (sh : Shared) (n : ℕ) (todo : Bytes)
      → InBody left header_size max last end tail g todo
      → P g.inner sh
      → Stepped todo (read_data poll g sh (empty_buf n))
  unfolding read_data
  body-Stepped g sh n todo s holds =
      let b = empty_buf (min g.data_remaining (remaining (empty_buf n))) in
      let t = poll g.inner sh b in
      let f = fed g.inner sh b holds in
      let same = f.hands.filled in
      inl (
        data_read-Goes left header_size max last end tail g n todo t t.poll s
          (f.fed ∙ ap (λ x. x ++ left t.state) (sym same)) (rw same (omega (arith, f.hands.fits)))
          (λ q. same ∙ f.hands.quiet q) f.no_error)

  -- With room in the buffer, by phase.
  room-Stepped :
      (g : HeaderGuard R) (sh : Shared) (n : ℕ) (todo : Bytes)
      → 0 < n
      → Tracks left header_size max last end tail g todo
      → P g.inner sh
      → Stepped todo (poll_guard poll header_size g sh (empty_buf n))
  unfolding poll_guard
  room-Stepped g sh n todo some_room (at_header s) holds =
      let none_ : (remaining (empty_buf n) == 0) ≡ false = ground arith in
      let data_ : ltb 0 g.data_remaining ≡ false = ground (arith, s.no_data) in
      rw none_ (simp s.common.no_trailer (rw data_ (reading-Stepped g sh n todo some_room s holds)))
  room-Stepped g sh n todo some_room (sending s begun) holds =
      let none_ : (remaining (empty_buf n) == 0) ≡ false = ground arith in
      let data_ : ltb 0 g.data_remaining ≡ false = ground (arith, s.no_data) in
      rw none_ (
        simp s.common.no_trailer (
          rw data_ (
            sending-Stepped g sh n todo s.full begun
              (emit-Sending left header_size max last end tail g sh n todo some_room s))))
  room-Stepped g sh n todo some_room (closing s begun) holds =
      let none_ : (remaining (empty_buf n) == 0) ≡ false = ground arith in
      let data_ : ltb 0 g.data_remaining ≡ false = ground (arith, s.no_data) in
      rw none_ (
        simp s.common.no_trailer (
          rw data_ (
            sending-Stepped g sh n todo s.full begun
              (emit-Closing left header_size max last end tail g sh n todo some_room s))))
  room-Stepped g sh n todo some_room (in_body s) holds =
      let none_ : (remaining (empty_buf n) == 0) ≡ false = ground arith in
      let data_ : ltb 0 g.data_remaining ≡ true = ground (arith, s.some_left) in
      rw none_ (simp s.common.no_trailer (rw data_ (body-Stepped g sh n todo s holds)))
  room-Stepped g sh n todo some_room (in_trailer s) holds =
      let none_ : (remaining (empty_buf n) == 0) ≡ false = ground arith in
      let t = poll g.inner sh (empty_buf n) in
      let f = fed g.inner sh (empty_buf n) holds in
      rw none_ (
        simp s.in_trailer (
          inl (record {
            rest = left t.state;
            handed = s.todo_eq ∙ (f.fed ∙ ap (λ x. x ++ left t.state) (sym f.hands.filled));
            tracks =
                in_trailer (record { zero_end = s.zero_end; in_trailer = refl; todo_eq = refl });
            calm = f.no_error;
          })))

  pub poll_guard-Stepped :
      (g : HeaderGuard R) (sh : Shared) (n : ℕ) (todo : Bytes)
      → Tracks left header_size max last end tail g todo
      → P g.inner sh
      → Stepped todo (poll_guard poll header_size g sh (empty_buf n))
  unfolding poll_guard
  poll_guard-Stepped g sh n todo s holds = elim (Bool-cases (remaining (empty_buf n) == 0)) [
    | inl e ↦ rw e (inl (record { rest = todo; handed = refl; tracks = s; calm = refl }))
    | inr e ↦ room-Stepped g sh n todo (ground arith) s holds
  ]

  pub poll_guard-Keeps :
      (g : HeaderGuard R) (sh : Shared) (n : ℕ)
      → P g.inner sh
      → (let t = poll_guard poll header_size g sh (empty_buf n) in P t.state.inner t.shared)
  poll_guard-Keeps g sh n holds =
      poll_guard-Holds P poll (512 + n) (λ s sh' b small p. (fed s sh' b p).holds) (omega arith)
        header_size g sh (empty_buf n) (omega arith) holds

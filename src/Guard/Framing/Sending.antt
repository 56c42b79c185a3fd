-- ===== src/Guard/Framing/Sending.antt =====
-- The header bytes that `HeaderGuard::poll_read` of src/guard.rs hands out, by phase.
use etar.Prelude.{
  ℕ, ◌+◌, ◌-◌, ◌<◌, ◌≡◌, refl, ap, sym, ◌∙◌, Option, none, ◌++◌, append_assoc, Bytes, length, take,
  drop, min, ◌==◌, ok, inl, inr, arith, Bool-cases, take_all, drop-drop, take-append-drop,
  length-drop,
}
use etar.Io.{Shared, empty_buf, remaining}
use etar.Guard.{HeaderGuard, end_data, take_pax}
use etar.Guard.Reading.{emit}
use etar.Guard.Framing.Phases.{
  Sending, Closing, sending, closing, in_trailer, Goes, end_data-Tracks,
}

end_data-none : {R : Type 0} (g : HeaderGuard R) → g.pax_body ≡ none → end_data g ≡ (g, ok tt)
unfolding end_data take_pax
end_data-none g h = ground (arith, h)

-- What is handed out of a header, and what stays.
header-split :
    (h rest : Bytes) (e n : ℕ) → drop e h ++ rest ≡ take n (drop e h) ++ (drop (e + n) h ++ rest)
header-split h rest e n =
    ap (λ x. x ++ rest)
      (sym (take-append-drop n (drop e h))
        ∙ ap (λ x. take n (drop e h) ++ x) (sym (drop-drop e n h)))
    ∙ append_assoc (take n (drop e h)) (drop (e + n) h) rest

header-end :
    (h rest : Bytes) (e n : ℕ)
    → length h ≡ 512
    → e + n ≡ 512
    → drop e h ++ rest ≡ take n (drop e h) ++ rest
header-end h rest e n size ends =
    ap (λ x. x ++ rest) (sym (take_all n (drop e h) (omega (arith, length-drop e h))))

module _ {R : Type 0} (left : R → Bytes) (header_size : Bytes → Option ℕ) (max : ℕ)
    (last : Option ℕ) (end tail : Bytes) where
  pub emit-Sending :
      (g : HeaderGuard R) (sh : Shared) (n : ℕ) (todo : Bytes)
      → 0 < n
      → Sending left header_size max last end tail g todo
      → Goes left header_size max last end tail todo (emit g sh (empty_buf n))
  unfolding emit
  emit-Sending g sh n todo some_room s =
      let k = min (remaining (empty_buf n)) (512 - g.emitted) in
      let c = s.common in
      elim (Bool-cases (g.emitted + k == 512)) [
        | inl e ↦
            let next = record g {
              filled = 0;
              emitted = 0;
              data_remaining = g.next_data;
              next_data = 0;
              trailer = g.next_trailer;
            } in
            let (fine, tracks) =
              end_data-Tracks left header_size max last end tail next s.body s.ms s.next
                (record { size = c.size; no_trailer = s.no_end; same_max = c.same_max }) s.accepts
                refl refl s.no_end s.long s.pax s.read in
            rw e (record {
              rest = left g.inner;
              handed =
                  s.todo_eq ∙ header-end g.header (left g.inner) g.emitted k c.size (ground arith);
              tracks = tracks;
              calm = rw fine refl;
            })
        | inr e ↦ rw e (record {
          rest = drop (g.emitted + k) g.header ++ left g.inner;
          handed = s.todo_eq ∙ header-split g.header (left g.inner) g.emitted k;
          tracks =
              sending
                (record {
                  common = record {
                    size = c.size;
                    no_trailer = c.no_trailer;
                    same_max = c.same_max;
                  };
                  body = s.body;
                  ms = s.ms;
                  next = s.next;
                  accepts = s.accepts;
                  full = s.full;
                  emitted_lt = ground (arith, s.emitted_lt);
                  no_data = s.no_data;
                  no_end = s.no_end;
                  long = s.long;
                  pax = s.pax;
                  read = s.read;
                  todo_eq = refl;
                })
                (omega (arith, s.emitted_lt));
          calm = refl;
        })
      ]

  pub emit-Closing :
      (g : HeaderGuard R) (sh : Shared) (n : ℕ) (todo : Bytes)
      → 0 < n
      → Closing left header_size max last end tail g todo
      → Goes left header_size max last end tail todo (emit g sh (empty_buf n))
  unfolding emit
  emit-Closing g sh n todo some_room s =
      let k = min (remaining (empty_buf n)) (512 - g.emitted) in
      let c = s.common in
      elim (Bool-cases (g.emitted + k == 512)) [
        | inl e ↦
            let next = record g {
              filled = 0;
              emitted = 0;
              data_remaining = g.next_data;
              next_data = 0;
              trailer = g.next_trailer;
            } in
            rw (e, end_data-none next s.no_body)
              (record {
                rest = left g.inner;
                handed =
                    s.todo_eq
                    ∙ header-end g.header (left g.inner) g.emitted k c.size (ground arith);
                tracks =
                    in_trailer
                      (record { zero_end = s.zero_end; in_trailer = s.at_end; todo_eq = refl });
                calm = refl;
              })
        | inr e ↦ rw e (record {
          rest = drop (g.emitted + k) g.header ++ left g.inner;
          handed = s.todo_eq ∙ header-split g.header (left g.inner) g.emitted k;
          tracks =
              closing
                (record {
                  common = record {
                    size = c.size;
                    no_trailer = c.no_trailer;
                    same_max = c.same_max;
                  };
                  zero_end = s.zero_end;
                  full = s.full;
                  emitted_lt = ground (arith, s.emitted_lt);
                  no_data = s.no_data;
                  at_end = s.at_end;
                  no_body = s.no_body;
                  todo_eq = refl;
                })
                (omega (arith, s.emitted_lt));
          calm = refl;
        })
      ]

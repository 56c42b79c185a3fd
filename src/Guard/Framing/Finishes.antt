-- ===== src/Guard/Framing/Finishes.antt =====
-- Enough polls of `HeaderGuard` of src/guard.rs, over a reader that never waits, come to the end of an
-- archive or to its error.
use etar.Prelude.{
  ℕ, suc, ◌≤◌, ◌<◌, ◌≡◌, refl, ap, sym, ◌∙◌, subst, true, false, Option, none, some, List, [], ◌∷◌,
  ◌++◌, append_assoc, Bytes, length, length-append, All, err, ◌⊎◌, inl, inr, arith,
}
use etar.Errors.{IoError}
use etar.Io.{Shared, Poller, Stopped, stop_or, poll_error, until_error, empty_buf}
use etar.Guard.{HeaderGuard, new_guard, is_zero_block}
use etar.Guard.Reading.{poll_guard}
use etar.Guard.Framing.{Member, bytes_of, check_header, Accepts, IsFed}
use etar.Guard.Framing.Follows.{poll_guard-Stepped, poll_guard-Keeps}
use etar.Guard.Framing.Heading.{Ends}
use etar.Guard.Framing.Phases.{Tracks, Goes}
use etar.Guard.Framing.Progress.{IsEager, poll_guard-Moves}
use etar.Guard.Framing.Whole.{Ended, poll_error-calm, new_guard-Tracks, until_error-refused}

no_bytes : (bs : Bytes) → length bs ≤ 0 → bs ≡ []
no_bytes [] h = refl
no_bytes (b ∷ bs) h = absurd (omega arith)

module _ {R : Type 0} {P : R → Shared → Type 0} (poll : Poller R) (left : R → Bytes)
    (fed : IsFed P poll left) (eager : IsEager P poll left) (header_size : Bytes → Option ℕ)
    (max : ℕ) (last : Option ℕ) (end tail : Bytes) (ends : Ends left header_size max last end tail)
    (end_size : length end ≡ 512) where
  -- All that is to be handed out is handed out, or the end is refused.
  abbrev Done : Bytes → Stopped (HeaderGuard R) → Type 0
  Done todo d =
      ((d.error ≡ none) × (d.bytes ≡ todo)) ⊎ Ended left header_size max last end tail todo d

  -- A poll that goes on leaves less, unless nothing was left.
  moved :
      (g : HeaderGuard R) (sh : Shared) (n : ℕ) (todo : Bytes)
      → 0 < n
      → Tracks left header_size max last end tail g todo
      → P g.inner sh
      → (go : Goes left header_size max last end tail todo
          (poll_guard poll header_size g sh (empty_buf n)))
      → (0 < length todo → length go.rest < length todo)
  moved g sh n todo some_room s p go some_todo =
      let filled = (poll_guard poll header_size g sh (empty_buf n)).buf.filled in
      elim (poll_guard-Moves poll left fed eager header_size max last end tail end_size g sh n todo
        some_room some_todo s p) [
          | inl some_ ↦ omega (arith, ap length go.handed, length-append filled go.rest)
          | inr bad ↦ absurd (ground (arith, bad, go.calm))
        ]

  until_error-Done :
      (ns : List ℕ) (g : HeaderGuard R) (sh : Shared) (todo : Bytes)
      → Tracks left header_size max last end tail g todo
      → All (λ n. 0 < n) ns
      → length todo ≤ length ns
      → P g.inner sh
      → Done todo (until_error (poll_guard poll header_size) g sh ns)
  unfolding until_error
  until_error-Done [] g sh todo s rooms enough p = inl (refl, sym (no_bytes todo enough))
  until_error-Done (n ∷ ns) g sh todo s (some_room, rooms) enough p =
      let t = poll_guard poll header_size g sh (empty_buf n) in
      let more = until_error (poll_guard poll header_size) t.state t.shared ns in
      elim (poll_guard-Stepped poll left fed header_size max last end tail ends end_size g sh n todo
        s p) [
          | inl go ↦
              let less = moved g sh n todo some_room s p go in
              let split = ap length go.handed ∙ length-append t.buf.filled go.rest in
              subst (λ o. Done todo (stop_or t more o)) (sym (poll_error-calm t.poll go.calm))
                (elim (until_error-Done ns t.state t.shared go.rest go.tracks rooms
                  (fewer (length todo) (length go.rest) (length ns) (omega (arith, split)) less
                    enough)
                  (poll_guard-Keeps poll left fed header_size max last end tail ends end_size g sh n
                    p)) [
                      | inl (fine, all) ↦
                          inl (fine, ap (λ x. t.buf.filled ++ x) all ∙ sym go.handed)
                      | inr r ↦ inr (record {
                        error = r.error;
                        stopped = r.stopped;
                        nonzero = r.nonzero;
                        refused = r.refused;
                        at_end =
                            go.handed
                            ∙ (ap (λ x. t.buf.filled ++ x) r.at_end
                                ∙ sym (append_assoc t.buf.filled more.bytes (end ++ tail)));
                      })
                    ])
          | inr stop ↦
              subst (λ p. Done todo (stop_or t more (poll_error p))) (sym stop.polled)
                (inr (record {
                  error = stop.error;
                  stopped = refl;
                  nonzero = stop.nonzero;
                  refused = stop.refused;
                  at_end = stop.at_end ∙ ap (λ x. x ++ (end ++ tail)) (sym stop.nothing);
                }))
        ]
    where
      fewer : (a b c : ℕ) → b ≤ a → (0 < a → b < a) → a ≤ suc c → b ≤ c
      fewer a b c le lt h = ground (arith, lt)

-- A caller polls a new guard over an archive, as many times as the archive has bytes or more, each
-- time with a buffer that has room. The archive is a sequence of members that the description
-- accepts, a zero block, and any bytes; its reader hands it out in pieces of any sizes, and neither
-- fails nor waits. Then no poll fails and the guard has handed out the whole archive. What is assumed
-- of the reader may rest on `P`, which holds at first and which it keeps.
pub until_error_complete :
    {R : Type 0} {P : R → Shared → Type 0} (poll : Poller R) (left : R → Bytes)
    → IsFed P poll left
    → IsEager P poll left
    → (header_size : Bytes → Option ℕ) (max : ℕ) (ms : List Member) (last : Option ℕ)
      (end tail : Bytes) (s : R) (sh : Shared) (ns : List ℕ)
    → Accepts header_size max none ms last
    → is_zero_block end ≡ true
    → length end ≡ 512
    → left s ≡ bytes_of ms ++ (end ++ tail)
    → P s sh
    → All (λ n. 0 < n) ns
    → length (left s) ≤ length ns
    → (let d = until_error (poll_guard poll header_size) (new_guard s max) sh ns in
        (d.error ≡ none) × (d.bytes ≡ left s))
unfolding new_guard
until_error_complete poll left fed eager header_size max ms last end tail s sh ns accepts zero_end
      size holds p rooms enough =
    elim (until_error-Done poll left fed eager header_size max last end tail (inl zero_end) size ns
      (new_guard s max) sh _
      (new_guard-Tracks left header_size max last end tail poll fed (inl zero_end) size s ms accepts
        holds)
      rooms (omega (arith, ap length holds)) p) [
        | inl (fine, all) ↦ (fine, all ∙ sym holds)
        | inr r ↦ absurd (ground (arith, zero_end, r.nonzero))
      ]

-- The same caller, where the members that the description accepts are followed by a block, not all
-- zeros, that it refuses. Then the guard has handed out all the members' bytes and no more, and has
-- failed with the description's error. What is assumed of the reader may rest on `P`, which holds at
-- first and which it keeps.
pub until_error-fails :
    {R : Type 0} {P : R → Shared → Type 0} (poll : Poller R) (left : R → Bytes)
    → IsFed P poll left
    → IsEager P poll left
    → (header_size : Bytes → Option ℕ) (max : ℕ) (ms : List Member) (last : Option ℕ)
      (end tail : Bytes) (error : IoError) (s : R) (sh : Shared) (ns : List ℕ)
    → Accepts header_size max none ms last
    → is_zero_block end ≡ false
    → check_header header_size max last end ≡ err error
    → length end ≡ 512
    → left s ≡ bytes_of ms ++ (end ++ tail)
    → P s sh
    → All (λ n. 0 < n) ns
    → length (left s) ≤ length ns
    → (let d = until_error (poll_guard poll header_size) (new_guard s max) sh ns in
        (d.error ≡ some error) × (d.bytes ≡ bytes_of ms))
unfolding new_guard
until_error-fails poll left fed eager header_size max ms last end tail error s sh ns accepts nonzero
      refused size holds p rooms enough =
    let ends : Ends left header_size max last end tail = inr (nonzero, (error, refused)) in
    let d = until_error (poll_guard poll header_size) (new_guard s max) sh ns in
    elim (until_error-refused poll left fed header_size max ms last end tail error s sh ns accepts
      nonzero refused size holds p) [
        | inr done ↦ done
        | inl (rest, unstopped, front) ↦
            elim (until_error-Done poll left fed eager header_size max last end tail ends size ns
              (new_guard s max) sh _
              (new_guard-Tracks left header_size max last end tail poll fed ends size s ms accepts
                holds)
              rooms (omega (arith, ap length holds)) p) [
                | inl (fine, all) ↦ absurd (
                    omega (
                      arith,
                      ap length front,
                      length-append d.bytes rest,
                      ap length all,
                      length-append (bytes_of ms) (end ++ tail),
                      length-append end tail,
                    ))
                | inr r ↦ absurd (ground (arith, unstopped, r.stopped))
              ]
      ]

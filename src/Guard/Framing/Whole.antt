-- ===== src/Guard/Framing/Whole.antt =====
-- What `HeaderGuard` of src/guard.rs hands out of a whole archive to a caller that stops at an error.
use etar.Prelude.{
  ok, length-append, ℕ, ◌≡◌, refl, ap, sym, ◌∙◌, subst, true, false, Option, none, some, List, [],
  ◌∷◌, ◌++◌, append_assoc, drop, Bytes, length, err, Result, ◌⊎◌, inl, inr, arith, length-replicate,
}
use etar.Errors.{IoError}
use etar.Io.{
  Poll, pending, ready, Shared, Poller, Stopped, poll_error, stop_or, until_error, empty_buf,
}
use etar.Guard.{HeaderGuard, new_guard, is_zero_block}
use etar.Guard.Reading.{poll_guard}
use etar.Guard.Framing.{Member, bytes_of, check_header, Accepts, IsFed}
use etar.Io.Contract.{is_error}
use etar.Guard.Framing.Follows.{poll_guard-Stepped, poll_guard-Keeps}
use etar.Guard.Framing.Heading.{Ends, same_front}
use etar.Guard.Framing.Phases.{Tracks, at_header, sending, closing, in_body, in_trailer}

pub poll_error-calm : (p : Poll) → is_error p ≡ false → poll_error p ≡ none
poll_error-calm pending calm = refl
poll_error-calm (ready (ok u)) calm = refl
poll_error-calm (ready (err e)) calm = cc

pub cancel_tail : (xs ys zs : Bytes) → xs ++ zs ≡ ys ++ zs → xs ≡ ys
cancel_tail xs ys zs e =
    let (same, rest) =
      same_front xs zs ys zs e
        (omega (arith, ap length e, length-append xs zs, length-append ys zs)) in
    same

module _ {R : Type 0} (left : R → Bytes) (header_size : Bytes → Option ℕ) (max : ℕ)
    (last : Option ℕ) (end tail : Bytes) where
  -- An error comes from the block behind the members, once they have been handed out.
  pub record Ended (todo : Bytes) (d : Stopped (HeaderGuard R)) : Type 0 where
    pub error : IoError
    pub stopped : d.error ≡ some error
    pub nonzero : is_zero_block end ≡ false
    pub refused : check_header header_size max last end ≡ err error
    pub at_end : todo ≡ d.bytes ++ (end ++ tail)

  record Running (todo : Bytes) (d : Stopped (HeaderGuard R)) : Type 0 where
    pub rest : Bytes
    pub unstopped : d.error ≡ none
    pub handed : todo ≡ d.bytes ++ rest
    pub tracks : Tracks left header_size max last end tail d.state rest

  module _ {P : R → Shared → Type 0} (poll : Poller R) (fed : IsFed P poll left)
      (ends : Ends left header_size max last end tail) (end_size : length end ≡ 512) where
    until_error-Tracks :
        (ns : List ℕ) (g : HeaderGuard R) (sh : Shared) (todo : Bytes)
        → Tracks left header_size max last end tail g todo
        → P g.inner sh
        → (let d = until_error (poll_guard poll header_size) g sh ns in
            Running todo d ⊎ Ended todo d)
    unfolding until_error
    until_error-Tracks [] g sh todo s holds =
        inl (record { rest = todo; unstopped = refl; handed = refl; tracks = s })
    until_error-Tracks (n ∷ ns) g sh todo s holds =
        let t = poll_guard poll header_size g sh (empty_buf n) in
        let more = until_error (poll_guard poll header_size) t.state t.shared ns in
        elim (poll_guard-Stepped poll left fed header_size max last end tail ends end_size g sh n
          todo s holds) [
            | inl go ↦
                subst (λ o. Running todo (stop_or t more o) ⊎ Ended todo (stop_or t more o))
                  (sym (poll_error-calm t.poll go.calm))
                  (elim (until_error-Tracks ns t.state t.shared go.rest go.tracks (
                    poll_guard-Keeps poll left fed header_size max last end tail ends end_size g sh
                      n holds)) [
                        | inl r ↦ inl (record {
                          rest = r.rest;
                          unstopped = r.unstopped;
                          handed =
                              go.handed
                              ∙ (ap (λ x. t.buf.filled ++ x) r.handed
                                  ∙ sym (append_assoc t.buf.filled more.bytes r.rest));
                          tracks = r.tracks;
                        })
                        | inr r ↦ inr (record {
                          error = r.error;
                          stopped = r.stopped;
                          nonzero = r.nonzero;
                          refused = r.refused;
                          at_end =
                              go.handed
                              ∙ (ap (λ x. t.buf.filled ++ x) r.at_end
                                  ∙ sym (append_assoc t.buf.filled more.bytes (end ++ tail)));
                        })
                      ])
            | inr stop ↦
                subst
                  (λ p.
                    Running todo (stop_or t more (poll_error p))
                    ⊎ Ended todo (stop_or t more (poll_error p)))
                  (sym stop.polled)
                  (inr (record {
                    error = stop.error;
                    stopped = refl;
                    nonzero = stop.nonzero;
                    refused = stop.refused;
                    at_end = stop.at_end ∙ ap (λ x. x ++ (end ++ tail)) (sym stop.nothing);
                  }))
          ]

    pub new_guard-Tracks :
        (s : R) (ms : List Member)
        → Accepts header_size max none ms last
        → left s ≡ bytes_of ms ++ (end ++ tail)
        → Tracks left header_size max last end tail (new_guard s max) (bytes_of ms ++ (end ++ tail))
    unfolding new_guard
    new_guard-Tracks s ms accepts holds = at_header (record {
      common = record { size = length-replicate {A = ℕ} 512 0; no_trailer = refl; same_max = refl };
      ms = ms;
      accepts = accepts;
      todo_eq = refl;
      filled_le = omega arith;
      unstarted = refl;
      no_data = refl;
      no_end = refl;
      no_body = refl;
      read = holds;
    })

  -- In front of a block that is refused, a phase stands in the members.
  Tracks-front :
      (g : HeaderGuard R) (todo : Bytes)
      → is_zero_block end ≡ false
      → Tracks left header_size max last end tail g todo
      → (rest : Bytes) × (todo ≡ rest ++ (end ++ tail))
  Tracks-front g todo nonzero (at_header s) = (bytes_of s.ms, s.todo_eq)
  Tracks-front g todo nonzero (sending s begun) = (
    drop g.emitted g.header ++ (s.body ++ bytes_of s.ms),
    s.todo_eq
        ∙ (ap (λ x. drop g.emitted g.header ++ x)
              (s.read ∙ sym (append_assoc s.body (bytes_of s.ms) (end ++ tail)))
            ∙ sym (append_assoc (drop g.emitted g.header) (s.body ++ bytes_of s.ms) (end ++ tail))),
  )
  Tracks-front g todo nonzero (closing s begun) = absurd (ground (arith, nonzero, s.zero_end))
  Tracks-front g todo nonzero (in_body s) = (
    s.body ++ bytes_of s.ms,
    s.todo_eq ∙ (s.read ∙ sym (append_assoc s.body (bytes_of s.ms) (end ++ tail))),
  )
  Tracks-front g todo nonzero (in_trailer s) = absurd (ground (arith, nonzero, s.zero_end))

-- A caller that polls a new guard over an archive, with any buffers, goes no further than an error.
-- The archive is a sequence of members that the description accepts, a zero block, and any bytes;
-- its reader hands it out in pieces of any sizes and waits, but does not fail. Then no poll fails,
-- and what the guard hands out is a front of the archive. What is assumed of the reader may rest on
-- `P`, which holds at first and which it keeps.
pub until_error-accepted :
    {R : Type 0} {P : R → Shared → Type 0} (poll : Poller R) (left : R → Bytes)
    → IsFed P poll left
    → (header_size : Bytes → Option ℕ) (max : ℕ) (ms : List Member) (last : Option ℕ)
      (end tail : Bytes) (s : R) (sh : Shared) (ns : List ℕ)
    → Accepts header_size max none ms last
    → is_zero_block end ≡ true
    → length end ≡ 512
    → left s ≡ bytes_of ms ++ (end ++ tail)
    → P s sh
    → (let d = until_error (poll_guard poll header_size) (new_guard s max) sh ns in
        (d.error ≡ none) × ((rest : Bytes) × (bytes_of ms ++ (end ++ tail) ≡ d.bytes ++ rest)))
unfolding new_guard
until_error-accepted poll left fed header_size max ms last end tail s sh ns accepts zero_end size
      holds p =
    elim (until_error-Tracks left header_size max last end tail poll fed (inl zero_end) size ns
      (new_guard s max) sh _
      (new_guard-Tracks left header_size max last end tail poll fed (inl zero_end) size s ms accepts
        holds)
      p) [
        | inl r ↦ (r.unstopped, (r.rest, r.handed))
        | inr r ↦ absurd (ground (arith, zero_end, r.nonzero))
      ]

-- The same caller, where the members that the description accepts are followed by a block, not all
-- zeros, that it refuses. Then what the guard hands out is a front of the members' bytes, so no byte
-- of the refused block comes out; and if a poll fails, it is with the description's error, and all
-- the members' bytes have been handed out before it. What is assumed of the reader may rest on `P`,
-- which holds at first and which it keeps.
pub until_error-refused :
    {R : Type 0} {P : R → Shared → Type 0} (poll : Poller R) (left : R → Bytes)
    → IsFed P poll left
    → (header_size : Bytes → Option ℕ) (max : ℕ) (ms : List Member) (last : Option ℕ)
      (end tail : Bytes) (error : IoError) (s : R) (sh : Shared) (ns : List ℕ)
    → Accepts header_size max none ms last
    → is_zero_block end ≡ false
    → check_header header_size max last end ≡ err error
    → length end ≡ 512
    → left s ≡ bytes_of ms ++ (end ++ tail)
    → P s sh
    → (let d = until_error (poll_guard poll header_size) (new_guard s max) sh ns in
        ((rest : Bytes) × (d.error ≡ none) × (bytes_of ms ≡ d.bytes ++ rest))
        ⊎ ((d.error ≡ some error) × (d.bytes ≡ bytes_of ms)))
unfolding new_guard
until_error-refused poll left fed header_size max ms last end tail error s sh ns accepts nonzero
      refused size holds p =
    let ends = inr (nonzero, (error, refused)) in
    let d = until_error (poll_guard poll header_size) (new_guard s max) sh ns in
    elim (until_error-Tracks left header_size max last end tail poll fed ends size ns
      (new_guard s max) sh _
      (new_guard-Tracks left header_size max last end tail poll fed ends size s ms accepts holds)
      p) [
        | inl r ↦
            let (rest, front) =
              Tracks-front left header_size max last end tail _ r.rest nonzero r.tracks in
            inl (
              rest,
              r.unstopped,
              cancel_tail (bytes_of ms) (d.bytes ++ rest) (end ++ tail) (
                  r.handed
                  ∙ (ap (λ x. d.bytes ++ x) front ∙ sym (append_assoc d.bytes rest (end ++ tail)))),
            )
        | inr r ↦ inr (
          r.stopped ∙ ap some (same_error r.error (sym r.refused ∙ refused)),
          sym (cancel_tail (bytes_of ms) d.bytes (end ++ tail) r.at_end),
        )
      ]
  where
    same_error : (e : IoError) → ◌≡◌ {A = Result ℕ IoError} (err e) (err error) → e ≡ error
    same_error e h = cc

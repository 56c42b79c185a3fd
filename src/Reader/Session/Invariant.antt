-- ===== src/Reader/Session/Invariant.antt =====
-- What holds of a client of src/reader.rs and its reader after any steps.
use etar.Prelude.{
  ℕ, ◌+◌, ◌-◌, ◌*◌, ◌≤◌, ◌<◌, ◌≡◌, refl, ap, sym, ◌∙◌, subst, Bool-cases, inl, inr, ◌⊎◌, true,
  false, Option, none, some, Result, ok, err, arith,
}
use etar.Errors.{Error, aborted}
use etar.Limits.{SecurityLimits}
use etar.Io.{Shared, u64_mod, empty_buf}
use etar.Open.Bounded.{Bounded, poll_bounded-le}
use etar.Open.OpenEntry.{OpenEntry, poll_open}
use etar.Reader.{TarParser, new_reader, Called, called, next_entry}
use etar.Reader.Body.{lend, poll_entry}
use etar.Reader.Poison.{KeepsFailed, poll_entry-KeepsFailed}
use etar.Reader.Sequence.{
  entries_in, Counts, next_entry-Marks, next_entry-aborted, next_entry-FailsOrCounts,
}
use etar.Reader.Session.{
  Session, new_session, lent_by, kept, after_call, after_poll, polled, Step, call, poll, Reach,
  here, next,
}
use etar.Reader.Session.Entries.{IsGuarded, next_entry-IsGuarded}

-- What the body of the lent entry may still hand out.
abbrev pub room_of : {B : Type 0} → Option (OpenEntry B) → ℕ
room_of none = 0
room_of (some o) = o.body.remaining

abbrev pub Guarded : {B : Type 0} → SecurityLimits → Option (OpenEntry B) → Type 0
Guarded limits none = Unit {0}
Guarded limits (some o) = IsGuarded limits o

-- The products that the bound multiplies out to.
one_more : (bytes entries max : ℕ) → bytes ≤ entries * max → bytes + max ≤ (entries + 1) * max
one_more bytes entries max h = grind (arith, h)

module _ {A B S : Type 0} (parser : TarParser A B S) (keeps : KeepsFailed parser.poll_body)
    (limits : SecurityLimits) (countable : limits.max_entries < u64_mod - 1) where
  -- A reader that has not failed has counted its entries.
  pub record Inv (s : Session A B) : Type 0 where
    pub bounded : s.body_bytes + room_of s.lent ≤ s.entries * limits.max_entry_bytes
    pub few : s.entries ≤ limits.max_entries
    pub guarded : Guarded limits s.lent
    pub same_limits : s.shared.body_failed ≡ false → s.reader.limits ≡ limits
    pub counted : s.shared.body_failed ≡ false → s.entries ≡ s.reader.seen

  -- What a call hands out.
  split_result :
      (x : Option (Result (Option (OpenEntry B)) Error))
      → (entries_in parser 0 0 x ≡ 0) × (lent_by x ≡ none)
        ⊎ (o : OpenEntry B) × (x ≡ some (ok (some o)))
  split_result none = inl (refl, refl)
  split_result (some (err e)) = inl (refl, refl)
  split_result (some (ok none)) = inl (refl, refl)
  split_result (some (ok (some o))) = inr (o, refl)

  -- The reader of a call that did not fail.
  abbrev Settles : Session A B → Called A (Option (OpenEntry B)) → Type 0
  Settles s c =
      c.shared.body_failed ≡ false
      → (c.reader.limits ≡ limits) × (c.reader.seen ≡ s.entries + entries_in parser 0 0 c.result)

  without-Inv :
      (s : Session A B) (c : Called A (Option (OpenEntry B)))
      → Inv s
      → entries_in parser 0 0 c.result ≡ 0
      → lent_by c.result ≡ none
      → Settles s c
      → Inv (after_call parser s c)
  without-Inv s c v zero_ none_ settles =
      let room : room_of (lent_by c.result) ≡ 0 = ap room_of none_ in
      record {
        bounded = rw zero_ (omega (arith, v.bounded, room));
        few = omega (arith, v.few, zero_);
        guarded = subst (Guarded limits) (sym none_) tt;
        same_limits = λ e. (settles e).0;
        counted = λ e. sym (settles e).1;
      }

  with-Inv :
      (s : Session A B) (c : Called A (Option (OpenEntry B))) (o : OpenEntry B)
      → Inv s
      → c.result ≡ some (ok (some o))
      → IsGuarded limits o × (o.body.remaining ≡ limits.max_entry_bytes)
      → s.entries + 1 ≤ limits.max_entries
      → Settles s c
      → Inv (after_call parser s c)
  with-Inv s c o v e (guarded, fresh) small settles =
      let one : entries_in parser 0 0 c.result ≡ 1 = ap (entries_in parser 0 0) e in
      let room : room_of (lent_by c.result) ≡ o.body.remaining = ap (λ x. room_of (lent_by x)) e in
      let more =
        one_more s.body_bytes s.entries limits.max_entry_bytes (omega (arith, v.bounded)) in
      record {
        bounded = rw one (omega (arith, more, room, fresh));
        few = omega (arith, small, one);
        guarded = subst (Guarded limits) (sym (ap lent_by e)) guarded;
        same_limits = λ h. (settles h).0;
        counted = λ h. sym (settles h).1;
      }

  marked-Inv :
      (s : Session A B) (c : Called A (Option (OpenEntry B)))
      → Inv s
      → entries_in parser 0 0 c.result ≡ 0
      → c.shared.body_failed ≡ true
      → Inv (after_call parser s c)
  marked-Inv s c v zero_ marked = elim (split_result c.result) [
    | inl (z, n) ↦ without-Inv s c v zero_ n (λ e. cc)
    | inr (o, e) ↦ let one : entries_in parser 0 0 c.result ≡ 1 = ap (entries_in parser 0 0) e in cc
  ]

  counted-Inv :
      (patience rounds : ℕ) (s : Session A B) (c : Called A (Option (OpenEntry B)))
      → Inv s
      → s.shared.body_failed ≡ false
      → ((o : OpenEntry B)
          → c.result ≡ some (ok (some o))
          → IsGuarded limits o × (o.body.remaining ≡ limits.max_entry_bytes))
      → Counts parser patience rounds s.reader c
      → Inv (after_call parser s c)
  counted-Inv patience rounds s c v alive guards x =
      let same = v.same_limits alive in
      let limit = ap (λ l. l.max_entries) same in
      let settles : Settles s c =
        λ e. (x.same_limits ∙ same, omega (arith, x.seen, v.counted alive)) in
      elim (split_result c.result) [
        | inl (z, n) ↦ without-Inv s c v z n settles
        | inr (o, e) ↦
            let one : entries_in parser 0 0 c.result ≡ 1 = ap (entries_in parser 0 0) e in
            with-Inv s c o v e (guards o e)
              (omega (arith, x.seen, x.small, limit, one, v.counted alive)) settles
      ]

  call-Inv :
      (s : Session A B) (patience rounds : ℕ)
      → Inv s
      → Inv (after_call parser s (next_entry parser patience rounds s.reader s.shared))
  call-Inv s patience rounds v = elim (Bool-cases s.shared.body_failed) [
    | inl e ↦
        rw (next_entry-aborted parser patience rounds s.reader s.shared e)
          (marked-Inv s (called s.reader s.shared (some (err aborted))) v refl e)
    | inr e ↦
        let c = next_entry parser patience rounds s.reader s.shared in
        let same = v.same_limits e in
        let limit = ap (λ l. l.max_entries) same in
        let guards : (o : OpenEntry B)
            → c.result ≡ some (ok (some o))
            → IsGuarded limits o × (o.body.remaining ≡ limits.max_entry_bytes) =
          λ o h.
            subst (λ l. IsGuarded l o × (o.body.remaining ≡ l.max_entry_bytes)) same
              (next_entry-IsGuarded parser patience rounds s.reader s.shared o h) in
        elim (next_entry-FailsOrCounts parser patience rounds s.reader s.shared
          (omega (arith, v.few, v.counted e, limit)) (omega (arith, limit))) [
            | inl (f, z) ↦
                marked-Inv s c v z (next_entry-Marks parser patience rounds s.reader s.shared f)
            | inr x ↦ counted-Inv patience rounds s c v e guards x
          ]
  ]

  -- A poll leaves the fields that the guard reads.
  kept-Guarded :
      (o : OpenEntry B) (b : Bounded (B × Option A))
      → IsGuarded limits o
      → IsGuarded limits (kept (record (lend o none) { body = b }))
  kept-Guarded o b g = record {
    safe = g.safe;
    short = g.short;
    allowed = g.allowed;
    no_payload = g.no_payload;
    small = g.small;
    uid = g.uid;
    gid = g.gid;
  }

  -- The flag of a failed body is not taken back.
  poll_alive :
      (o : OpenEntry (B × Option A)) (sh : Shared) (n : ℕ)
      → (poll_entry parser o sh (empty_buf n)).shared.body_failed ≡ false
      → sh.body_failed ≡ false
  poll_alive o sh n e = elim (Bool-cases sh.body_failed) [
    | inl f ↦ let g = poll_entry-KeepsFailed parser keeps 0 0 o sh (empty_buf n) f in cc
    | inr f ↦ f
  ]

  poll-Inv :
      (s : Session A B) (o : OpenEntry B) (n : ℕ)
      → s.lent ≡ some o
      → Inv s
      → Inv (after_poll parser s (polled parser s o n))
  unfolding poll_entry poll_open
  poll-Inv s o n lent v =
      let t = polled parser s o n in
      let less = poll_bounded-le parser.poll_body (lend o s.reader.archive).body s.shared n in
      let room : room_of s.lent ≡ o.body.remaining = ap room_of lent in
      let alive = poll_alive (lend o s.reader.archive) s.shared n in
      record {
        bounded = omega (arith, v.bounded, less, room);
        few = v.few;
        guarded = kept-Guarded o t.state.body (subst (Guarded limits) lent v.guarded);
        same_limits = λ e. v.same_limits (alive e);
        counted = λ e. v.counted (alive e);
      }

  Step-Inv : {s t : Session A B} → Step parser s t → Inv s → Inv t
  Step-Inv {s} (call patience rounds) v = call-Inv s patience rounds v
  Step-Inv {s} (poll o n lent) v = poll-Inv s o n lent v

  pub Reach-Inv : {s t : Session A B} → Inv s → Reach parser s t → Inv t
  Reach-Inv v here = v
  Reach-Inv v (next r st) = Step-Inv st (Reach-Inv v r)

  pub new_session-Inv :
      (archive : A) (sh : Shared) → Inv (new_session {A = A} {B = B} archive limits sh)
  unfolding new_reader
  new_session-Inv archive sh = record {
    bounded = omega arith;
    few = omega arith;
    guarded = tt;
    same_limits = λ e. refl;
    counted = λ e. refl;
  }

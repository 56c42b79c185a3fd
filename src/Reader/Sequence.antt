-- ===== src/Reader/Sequence.antt =====
-- Sequences of `next_entry` calls on the reader of src/reader.rs.
use etar.Prelude.{
  ℕ, zero, suc, ◌+◌, ◌-◌, ◌≤◌, ◌<◌, ◌≡◌, refl, ap, sym, ◌∙◌, Bool, true, false, Option, none, some,
  ltb, Result, ok, err, arith, Bool-cases, inl, inr, ◌⊎◌,
}
use etar.Errors.{Error, IoError, aborted}
use etar.Limits.{SecurityLimits}
use etar.Io.{Shared, u64_mod, fetch_add}
use etar.Open.OpenEntry.{TarEntry, OpenEntry, open_entry}
use etar.Reader.{
  TarParser, Reader, new_reader, Called, called, verify_taken, conclude_end, accept,
  conclude_accept, on_next, next_from, next_entry,
}

-- A call that failed or was dropped.
abbrev pub is_failure : {X : Type 0} → Option (Result X Error) → Bool
is_failure none = true
is_failure (some (err e)) = true
is_failure (some (ok x)) = false

module _ {A B S : Type 0} (parser : TarParser A B S) (patience rounds : ℕ) where
  -- A failure marks the reader, in every part of `next_entry`.
  abbrev Marks : Called A (Option (OpenEntry B)) → Type 0
  Marks c = is_failure c.result ≡ true → c.shared.body_failed ≡ true

  conclude_end-Marks :
      (r : Reader A) (sh : Shared) (o : Option (Result (Unit {0}) Error))
      → Marks (conclude_end parser patience rounds r sh o)
  unfolding conclude_end
  conclude_end-Marks r sh none h = refl
  conclude_end-Marks r sh (some (err e)) h = refl
  conclude_end-Marks r sh (some (ok u)) h = cc

  conclude_accept-Marks :
      (p : Reader A × Result (OpenEntry B) Error) (sh : Shared)
      → Marks (conclude_accept parser patience rounds p sh)
  unfolding conclude_accept
  conclude_accept-Marks (r, ok o) sh h = cc
  conclude_accept-Marks (r, err e) sh h = refl

  on_next-Marks :
      (r : Reader A) (sh : Shared) (o : Option (Option (Result (TarEntry B) IoError)))
      → Marks (on_next parser patience rounds r sh o)
  unfolding on_next
  on_next-Marks r sh none h = refl
  on_next-Marks r sh (some none) h = conclude_end-Marks _ _ _ h
  on_next-Marks r sh (some (some (err e))) h = refl
  on_next-Marks r sh (some (some (ok entry))) h = conclude_accept-Marks _ sh h

  next_from-Marks :
      (r : Reader A) (sh : Shared) (o : Option A) → Marks (next_from parser patience rounds r sh o)
  unfolding next_from
  next_from-Marks r sh none h = refl
  next_from-Marks r sh (some a) h = on_next-Marks _ _ _ h

  pub next_entry-Marks :
      (r : Reader A) (sh : Shared) → Marks (next_entry parser patience rounds r sh)
  unfolding next_entry
  next_entry-Marks r sh h = ground (arith, next_from-Marks r sh r.archive)

  -- A reader with a failed body, or one that was poisoned by a call, only says so.
  pub next_entry-aborted :
      (r : Reader A) (sh : Shared)
      → sh.body_failed ≡ true
      → next_entry parser patience rounds r sh ≡ called r sh (some (err aborted))
  unfolding next_entry
  next_entry-aborted r sh h = simp h

  -- After a call of `next_entry` that failed, or whose future was dropped, every later call returns
  -- `Aborted` and changes nothing.
  pub next_entry-poisons :
      (r r' : Reader A) (sh : Shared)
      → is_failure (next_entry parser patience rounds r sh).result ≡ true
      → (let c = next_entry parser patience rounds r sh in
          next_entry parser patience rounds r' c.shared ≡ called r' c.shared (some (err aborted)))
  next_entry-poisons r r' sh h = next_entry-aborted r' _ (next_entry-Marks r sh h)

  abbrev pub entries_in : Option (Result (Option (OpenEntry B)) Error) → ℕ
  entries_in (some (ok (some o))) = 1
  entries_in (some (ok none)) = 0
  entries_in (some (err e)) = 0
  entries_in none = 0

  -- The entries that a number of calls in a row hand out; each body is dropped unread.
  unfoldable pub accepted : ℕ → Reader A → Shared → ℕ
  accepted zero r sh = 0
  accepted (suc calls) r sh =
      let c = next_entry parser patience rounds r sh in
      let rest = accepted calls c.reader c.shared in entries_in c.result + rest

  -- A call that did not fail counts what it hands out, within the limit.
  pub record Counts (r : Reader A) (c : Called A (Option (OpenEntry B))) : Type 0 where
    pub seen : c.reader.seen ≡ r.seen + entries_in c.result
    pub small : c.reader.seen ≤ r.limits.max_entries
    pub same_limits : c.reader.limits ≡ r.limits

  abbrev pub FailsOrCounts : Reader A → Called A (Option (OpenEntry B)) → Type 0
  FailsOrCounts r c =
      r.seen ≤ r.limits.max_entries
      → r.limits.max_entries < u64_mod - 1
      → (is_failure c.result ≡ true) × (entries_in c.result ≡ 0) ⊎ Counts r c

  -- The archive and the entries of the reader do not matter.
  reseat :
      (r r' : Reader A) (c : Called A (Option (OpenEntry B)))
      → r'.seen ≡ r.seen
      → r'.limits ≡ r.limits
      → (is_failure c.result ≡ true) × (entries_in c.result ≡ 0) ⊎ Counts r' c
      → (is_failure c.result ≡ true) × (entries_in c.result ≡ 0) ⊎ Counts r c
  reseat r r' c e l (inl f) = inl f
  reseat r r' c e l (inr x) = inr (record {
    seen = omega (arith, x.seen, e);
    small = rw (sym l) (x.small);
    same_limits = x.same_limits ∙ l;
  })

  conclude_end-FailsOrCounts :
      (r : Reader A) (sh : Shared) (o : Option (Result (Unit {0}) Error))
      → FailsOrCounts r (conclude_end parser patience rounds r sh o)
  unfolding conclude_end
  conclude_end-FailsOrCounts r sh none small room = inl (refl, refl)
  conclude_end-FailsOrCounts r sh (some (err e)) small room = inl (refl, refl)
  conclude_end-FailsOrCounts r sh (some (ok u)) small room =
      inr (record { seen = omega arith; small = small; same_limits = refl })

  settled :
      (r : Reader A) (n : ℕ) (x : Result (OpenEntry B) Error) (sh : Shared)
      → n ≡ r.seen + 1
      → n ≤ r.limits.max_entries
      → FailsOrCounts r (conclude_accept parser patience rounds (record r { seen = n }, x) sh)
  unfolding conclude_accept
  settled r n (ok o) sh e fits small room =
      inr (record { seen = e; small = fits; same_limits = refl })
  settled r n (err x) sh e fits small room = inl (refl, refl)

  accept-FailsOrCounts :
      (r : Reader A) (entry : TarEntry B) (sh : Shared)
      → FailsOrCounts r
          (conclude_accept parser patience rounds (accept parser patience rounds r entry) sh)
  unfolding accept
  accept-FailsOrCounts r entry sh small room =
      elim (Bool-cases (ltb r.limits.max_entries (fetch_add r.seen 1))) [
        | inl e ↦ rw e (unfold conclude_accept in inl (refl, refl))
        | inr e ↦ rw e (
            settled r (fetch_add r.seen 1) (open_entry entry r.limits) sh (omega arith)
              (ground arith) small room)
      ]

  on_next-FailsOrCounts :
      (r : Reader A) (sh : Shared) (o : Option (Option (Result (TarEntry B) IoError)))
      → FailsOrCounts r (on_next parser patience rounds r sh o)
  unfolding on_next
  on_next-FailsOrCounts r sh none small room = inl (refl, refl)
  on_next-FailsOrCounts r sh (some none) small room =
      let v = verify_taken parser patience rounds r.limits.max_total_bytes sh r.archive in
      let r' = record r { archive = none; entries = false } in
      reseat r r' _ refl refl (conclude_end-FailsOrCounts r' v.shared v.result small room)
  on_next-FailsOrCounts r sh (some (some (err e))) small room = inl (refl, refl)
  on_next-FailsOrCounts r sh (some (some (ok entry))) small room =
      accept-FailsOrCounts r entry sh small room

  next_from-FailsOrCounts :
      (r : Reader A) (sh : Shared) (o : Option A)
      → FailsOrCounts r (next_from parser patience rounds r sh o)
  unfolding next_from
  next_from-FailsOrCounts r sh none small room = inl (refl, refl)
  next_from-FailsOrCounts r sh (some a) small room =
      let p = parser.next a sh in
      let r' = record r { archive = some p.archive } in
      reseat r r' _ refl refl (on_next-FailsOrCounts r' p.shared p.result small room)

  pub next_entry-FailsOrCounts :
      (r : Reader A) (sh : Shared) → FailsOrCounts r (next_entry parser patience rounds r sh)
  unfolding next_entry
  next_entry-FailsOrCounts r sh small room = elim (Bool-cases sh.body_failed) [
    | inl e ↦ simp e (inl (refl, refl))
    | inr e ↦ simp e (elim (Bool-cases r.done) [
      | inl d ↦ simp d (inr (record { seen = omega arith; small = small; same_limits = refl }))
      | inr d ↦ simp d (elim (Bool-cases r.entries) [
        | inl n ↦ simp n (next_from-FailsOrCounts r sh r.archive small room)
        | inr n ↦ simp n (inl (refl, refl))
      ])
    ])
  ]

  accepted_poisoned :
      (calls : ℕ) (r : Reader A) (sh : Shared) → sh.body_failed ≡ true → accepted calls r sh ≡ 0
  unfolding accepted
  accepted_poisoned zero r sh h = refl
  accepted_poisoned (suc calls) r sh h =
      rw (next_entry-aborted r sh h) (omega (arith, accepted_poisoned calls r sh h))

  accepted-le :
      (calls : ℕ) (r : Reader A) (sh : Shared)
      → r.seen ≤ r.limits.max_entries
      → r.limits.max_entries < u64_mod - 1
      → r.seen + accepted calls r sh ≤ r.limits.max_entries
  unfolding accepted
  accepted-le zero r sh small room = omega arith
  accepted-le (suc calls) r sh small room =
      let c = next_entry parser patience rounds r sh in
      elim (next_entry-FailsOrCounts r sh small room) [
        | inl (f, z) ↦
            omega (arith, z, accepted_poisoned calls c.reader c.shared (next_entry-Marks r sh f))
        | inr x ↦
            let limit = ap (λ l. l.max_entries) x.same_limits in
            omega (
              arith,
              x.seen,
              x.small,
              limit,
              accepted-le calls c.reader c.shared (omega (arith, x.small, limit))
                  (omega (arith, limit)),
            )
      ]

  -- A new reader hands out at most `max_entries` entries over any number of calls, whatever the
  -- archive holds. The limit is below the largest 64-bit number, so that the count cannot wrap.
  pub accepted-new_reader :
      (calls : ℕ) (a : A) (limits : SecurityLimits) (sh : Shared)
      → limits.max_entries < u64_mod - 1
      → accepted calls (new_reader a limits) sh ≤ limits.max_entries
  unfolding new_reader
  accepted-new_reader calls a limits sh room =
      omega (arith, accepted-le calls (new_reader a limits) sh (omega arith) room)

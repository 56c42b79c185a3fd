-- ===== src/Reader/Ended.antt =====
-- The end of an archive, as `next_entry` of src/reader.rs reports it.
use etar.Prelude.{
  ℕ, ◌≡◌, refl, false, ltb, Bool-cases, Option, none, some, Result, ok, err, arith, inl, inr,
}
use etar.Errors.{Error, IoError}
use etar.Io.{Shared, fetch_add}
use etar.Open.OpenEntry.{TarEntry, OpenEntry}
use etar.Reader.{
  TarParser, Reader, Called, verify_taken, conclude_end, accept, conclude_accept, on_next,
  next_from, next_entry,
}
use etar.Reader.Sequence.{entries_in}

module _ {A B S : Type 0} (parser : TarParser A B S) (patience rounds : ℕ) where
  -- The verified end of the archive that `r` holds: the parser said that there is no more, `verify_end`
  -- succeeded on the archive that the parser left, and `after` has the counts behind it.
  pub record Ended (r : Reader A) (sh after : Shared) : Type 0 where
    pub held : A
    pub holds : r.archive ≡ some held
    pub said : (parser.next held sh).result ≡ some none
    pub verified :
        (verify_taken parser patience rounds r.limits.max_total_bytes
          (parser.next held sh).shared
          (some (parser.next held sh).archive)).result
        ≡ some (ok tt)
    pub at_after :
        after
        ≡ (verify_taken parser patience rounds r.limits.max_total_bytes
            (parser.next held sh).shared
            (some (parser.next held sh).archive)).shared

  conclude_end-ok :
      (r : Reader A) (sh : Shared) (o : Option (Result (Unit {0}) Error))
      → (conclude_end parser patience rounds r sh o).result ≡ some (ok none)
      → (o ≡ some (ok tt)) × ((conclude_end parser patience rounds r sh o).shared ≡ sh)
  unfolding conclude_end
  conclude_end-ok r sh none h = cc
  conclude_end-ok r sh (some (err e)) h = cc
  conclude_end-ok r sh (some (ok u)) h = (refl, refl)

  conclude_accept-some :
      (p : Reader A × Result (OpenEntry B) Error) (sh : Shared)
      → (conclude_accept parser patience rounds p sh).result ≡ some (ok none)
      → ⊥
  unfolding conclude_accept
  conclude_accept-some (r, ok o) sh h = cc
  conclude_accept-some (r, err e) sh h = cc

  on_next-ended :
      (r : Reader A) (a : A) (sh : Shared) (o : Option (Option (Result (TarEntry B) IoError)))
      → (let c = on_next parser patience rounds (record r { archive = some a }) sh o in
          let v = verify_taken parser patience rounds r.limits.max_total_bytes sh (some a) in
          c.result ≡ some (ok none)
          → (o ≡ some none) × (v.result ≡ some (ok tt)) × (c.shared ≡ v.shared))
  unfolding on_next
  on_next-ended r a sh none h = cc
  on_next-ended r a sh (some none) h =
      let (verified, same) = conclude_end-ok _ _ _ h in (refl, verified, same)
  on_next-ended r a sh (some (some (err e))) h = cc
  on_next-ended r a sh (some (some (ok entry))) h = absurd (conclude_accept-some _ sh h)

  next_from-Ended :
      (r : Reader A) (sh : Shared) (o : Option A)
      → r.archive ≡ o
      → (let c = next_from parser patience rounds r sh o in
          c.result ≡ some (ok none) → Ended r sh c.shared)
  unfolding next_from
  next_from-Ended r sh none e h = cc
  next_from-Ended r sh (some a) e h =
      let (said, verified, same) = on_next-ended r _ _ _ h in
      record { held = a; holds = e; said = said; verified = verified; at_after = same }

  pub next_entry-Ended :
      (r : Reader A) (sh : Shared)
      → r.done ≡ false
      → (let c = next_entry parser patience rounds r sh in
          c.result ≡ some (ok none) → Ended r sh c.shared)
  unfolding next_entry
  next_entry-Ended r sh open_ = elim (Bool-cases sh.body_failed) [
    | inl e ↦ simp e (λ h. cc)
    | inr e ↦
        simp (e, open_)
          (elim (Bool-cases r.entries) [
            | inl n ↦ simp n (next_from-Ended r sh r.archive refl)
            | inr n ↦ simp n (λ h. cc)
          ])
  ]

  -- A call that hands out an entry leaves the reader open.
  abbrev StaysOpen : Called A (Option (OpenEntry B)) → Type 0
  StaysOpen c = entries_in parser patience rounds c.result ≡ 1 → c.reader.done ≡ false

  conclude_accept-StaysOpen :
      (r : Reader A) (x : Result (OpenEntry B) Error) (sh : Shared)
      → r.done ≡ false
      → StaysOpen (conclude_accept parser patience rounds (r, x) sh)
  unfolding conclude_accept
  conclude_accept-StaysOpen r (ok o) sh open_ one = open_
  conclude_accept-StaysOpen r (err e) sh open_ one = open_

  accept-StaysOpen :
      (r : Reader A) (entry : TarEntry B) (sh : Shared)
      → r.done ≡ false
      → StaysOpen
          (conclude_accept parser patience rounds (accept parser patience rounds r entry) sh)
  unfolding accept
  accept-StaysOpen r entry sh open_ =
      elim (Bool-cases (ltb r.limits.max_entries (fetch_add r.seen 1))) [
        | inl e ↦
            rw e (conclude_accept-StaysOpen (record r { seen = fetch_add r.seen 1 }) _ sh open_)
        | inr e ↦
            rw e (conclude_accept-StaysOpen (record r { seen = fetch_add r.seen 1 }) _ sh open_)
      ]

  conclude_end-StaysOpen :
      (r : Reader A) (sh : Shared) (o : Option (Result (Unit {0}) Error))
      → StaysOpen (conclude_end parser patience rounds r sh o)
  unfolding conclude_end
  conclude_end-StaysOpen r sh none one = absurd (omega (arith, one))
  conclude_end-StaysOpen r sh (some (err e)) one = absurd (omega (arith, one))
  conclude_end-StaysOpen r sh (some (ok u)) one = absurd (omega (arith, one))

  on_next-StaysOpen :
      (r : Reader A) (sh : Shared) (o : Option (Option (Result (TarEntry B) IoError)))
      → r.done ≡ false
      → StaysOpen (on_next parser patience rounds r sh o)
  unfolding on_next
  on_next-StaysOpen r sh none open_ one = open_
  on_next-StaysOpen r sh (some none) open_ one = conclude_end-StaysOpen _ _ _ one
  on_next-StaysOpen r sh (some (some (err e))) open_ one = open_
  on_next-StaysOpen r sh (some (some (ok entry))) open_ one = accept-StaysOpen r entry sh open_ one

  next_from-StaysOpen :
      (r : Reader A) (sh : Shared) (o : Option A)
      → r.done ≡ false
      → StaysOpen (next_from parser patience rounds r sh o)
  unfolding next_from
  next_from-StaysOpen r sh none open_ one = open_
  next_from-StaysOpen r sh (some a) open_ one = on_next-StaysOpen _ _ _ open_ one

  pub next_entry-StaysOpen :
      (r : Reader A) (sh : Shared)
      → r.done ≡ false
      → StaysOpen (next_entry parser patience rounds r sh)
  unfolding next_entry
  next_entry-StaysOpen r sh open_ = ground (arith, next_from-StaysOpen r sh r.archive open_, open_)

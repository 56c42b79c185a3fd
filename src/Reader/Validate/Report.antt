-- ===== src/Reader/Validate/Report.antt =====
-- The report of `validate` of src/reader.rs, and the calls that it needs.
use etar.Prelude.{
  ℕ, zero, suc, ◌+◌, ◌-◌, ◌≤◌, ◌<◌, ◌≡◌, refl, ap, ◌∙◌, Option, none, some, Result, ok, err, arith,
  inl, inr,
}
use etar.Errors.{Error, IoError}
use etar.Limits.{SecurityLimits}
use etar.Io.{Shared, u64_mod}
use etar.Io.Await.{Awaited}
use etar.Open.OpenEntry.{OpenEntry}
use etar.Reader.{TarParser, Reader, new_reader, Called, next_entry}
use etar.Reader.Sequence.{entries_in, next_entry-FailsOrCounts}
use etar.Reader.Validate.{ValidationReport, Copier, copied, on_entry, validate_loop, validate}

module _ {A B S : Type 0} (parser : TarParser A B S) (patience rounds : ℕ) (copy : Copier) where
  abbrev More : Type 0
  More = Reader A → Shared → ℕ → Option (Result ValidationReport Error)

  -- Two rests of the loop agree on readers that have seen `seen` entries under the limits `l`.
  abbrev Agree : More → More → ℕ → SecurityLimits → Type 0
  Agree f g seen l =
      (r : Reader A) (sh : Shared) (n : ℕ) → r.seen ≡ seen → r.limits ≡ l → f r sh n ≡ g r sh n

  copied-cong :
      (f g : More) (r : Reader A) (n : ℕ)
      (a : Awaited (OpenEntry (B × Option A)) (Result ℕ IoError)) (o : Option (Result ℕ IoError))
      → Agree f g r.seen r.limits
      → copied parser patience rounds copy f r n a o ≡ copied parser patience rounds copy g r n a o
  unfolding copied
  copied-cong f g r n a none same = refl
  copied-cong f g r n a (some (err e)) same = refl
  copied-cong f g r n a (some (ok k)) same = same _ _ _ refl refl

  on_entry-cong :
      (f g : More) (n : ℕ) (c : Called A (Option (OpenEntry B)))
      (o : Option (Result (Option (OpenEntry B)) Error))
      → (entries_in parser patience rounds o ≡ 1 → Agree f g c.reader.seen c.reader.limits)
      → on_entry parser patience rounds copy f n c o ≡ on_entry parser patience rounds copy g n c o
  unfolding on_entry
  on_entry-cong f g n c none same = refl
  on_entry-cong f g n c (some (err e)) same = refl
  on_entry-cong f g n c (some (ok none)) same = refl
  on_entry-cong f g n c (some (ok (some o))) same = copied-cong f g c.reader n _ _ (same refl)

  validate_loop_fuel :
      (f g : ℕ) (r : Reader A) (sh : Shared) (n : ℕ)
      → r.seen ≤ r.limits.max_entries
      → r.limits.max_entries < u64_mod - 1
      → r.limits.max_entries < r.seen + f
      → r.limits.max_entries < r.seen + g
      → validate_loop parser patience rounds copy f r sh n
        ≡ validate_loop parser patience rounds copy g r sh n
  unfolding validate_loop
  validate_loop_fuel zero g r sh n small room hf hg = absurd (omega arith)
  validate_loop_fuel (suc f) zero r sh n small room hf hg = absurd (omega arith)
  validate_loop_fuel (suc f) (suc g) r sh n small room hf hg =
      let c = next_entry parser patience rounds r sh in
      on_entry-cong _ _ n c c.result (λ one r' sh' n' same_seen same_limits.
        elim (next_entry-FailsOrCounts parser patience rounds r sh small room) [
          | inl (x, z) ↦ absurd (omega (arith, z, one))
          | inr x ↦
              let limit = ap (λ l. l.max_entries) (same_limits ∙ x.same_limits) in
              let seen = x.seen in
              let fits = x.small in
              validate_loop_fuel f g r' sh' n' (omega (arith, seen, fits, limit, same_seen))
                (omega (arith, limit)) (omega (arith, seen, limit, same_seen, one))
                (omega (arith, seen, limit, same_seen, one))
        ])

  -- `validate` needs at most `max_entries + 1` calls of `next_entry`: with any greater number allowed it
  -- gives the same, whatever the archive holds and the copies do. The limit is below the largest 64-bit
  -- number.
  pub validate_fuel :
      (archive : A) (limits : SecurityLimits) (sh : Shared) (more : ℕ)
      → limits.max_entries < u64_mod - 1
      → validate parser patience rounds copy (limits.max_entries + 1 + more) archive limits sh
        ≡ validate parser patience rounds copy (limits.max_entries + 1) archive limits sh
  unfolding validate new_reader
  validate_fuel archive limits sh more room =
      validate_loop_fuel (limits.max_entries + 1 + more) (limits.max_entries + 1)
        (new_reader archive limits) sh 0 (omega arith) room (omega arith) (omega arith)

-- ===== src/Reader/Session/Entries.antt =====
-- The entries that `next_entry` of src/reader.rs hands out.
use etar.Prelude.{
  ℕ, ◌≤◌, ◌<◌, ◌^◌, ◌≡◌, ap, Bool-cases, inl, inr, ltb, ◌⊎◌, true, Option, none, some, length,
  Result, ok, err,
}
use etar.Errors.{Error, IoError, limit_exceeded}
use etar.Entry.{new_safe_path, is_file}
use etar.Limits.{SecurityLimits}
use etar.Io.{Shared, fetch_add}
use etar.Open.OpenEntry.{TarEntry, OpenEntry, open_entry}
use etar.Open.OpenEntry.Accepted.{AllowedKind, open_entry-IsAccepted}
use etar.Reader.{
  TarParser, Reader, Called, next_entry, next_from, on_next, accept, conclude_accept, conclude_end,
}

-- An entry that satisfies every limit and path rule.
pub record IsGuarded {B : Type 0} (limits : SecurityLimits) (o : OpenEntry B) : Type 0 where
  pub safe : new_safe_path o.path.path ≡ ok o.path
  pub short : length o.path.path ≤ limits.max_path_len
  pub allowed : AllowedKind limits o.meta.kind
  pub no_payload : (is_file o.meta.kind ≡ true) ⊎ (o.size_bytes ≡ 0)
  pub small : o.size_bytes ≤ limits.max_entry_bytes
  pub uid : o.meta.uid < 2 ^ 32
  pub gid : o.meta.gid < 2 ^ 32

module _ {A B S : Type 0} (parser : TarParser A B S) (patience rounds : ℕ) where
  -- What is handed out has been opened under the reader's limits.
  abbrev Opens : Reader A → Called A (Option (OpenEntry B)) → Type 0
  Opens r c =
      (o : OpenEntry B)
      → c.result ≡ some (ok (some o))
      → (entry : TarEntry B) × (open_entry entry r.limits ≡ ok o)

  conclude_end-Opens :
      (r : Reader A) (sh : Shared) (x : Option (Result (Unit {0}) Error))
      → Opens r (conclude_end parser patience rounds r sh x)
  unfolding conclude_end
  conclude_end-Opens r sh none o h = cc
  conclude_end-Opens r sh (some (err e)) o h = cc
  conclude_end-Opens r sh (some (ok u)) o h = cc

  conclude_accept-result :
      (r : Reader A) (x : Result (OpenEntry B) Error) (sh : Shared) (o : OpenEntry B)
      → (conclude_accept parser patience rounds (r, x) sh).result ≡ some (ok (some o))
      → x ≡ ok o
  unfolding conclude_accept
  conclude_accept-result r (ok y) sh o h = cc
  conclude_accept-result r (err e) sh o h = cc

  accept-Opens :
      (r : Reader A) (entry : TarEntry B) (sh : Shared)
      → Opens r (conclude_accept parser patience rounds (accept parser patience rounds r entry) sh)
  unfolding accept
  accept-Opens r entry sh o h = elim (Bool-cases (ltb r.limits.max_entries (fetch_add r.seen 1))) [
    | inl e ↦
        let impossible =
          conclude_accept-result _ (err (limit_exceeded "max_entries")) sh o (rw e at h) in
        cc
    | inr e ↦ (entry, conclude_accept-result _ (open_entry entry r.limits) sh o (rw e at h))
  ]

  on_next-Opens :
      (r : Reader A) (sh : Shared) (x : Option (Option (Result (TarEntry B) IoError)))
      → Opens r (on_next parser patience rounds r sh x)
  unfolding on_next
  on_next-Opens r sh none o h = cc
  on_next-Opens r sh (some none) o h = conclude_end-Opens _ _ _ o h
  on_next-Opens r sh (some (some (err e))) o h = cc
  on_next-Opens r sh (some (some (ok entry))) o h = accept-Opens r entry sh o h

  next_from-Opens :
      (r : Reader A) (sh : Shared) (x : Option A)
      → Opens r (next_from parser patience rounds r sh x)
  unfolding next_from
  next_from-Opens r sh none o h = cc
  next_from-Opens r sh (some a) o h = on_next-Opens _ _ _ o h

  next_entry-Opens : (r : Reader A) (sh : Shared) → Opens r (next_entry parser patience rounds r sh)
  unfolding next_entry
  next_entry-Opens r sh o h = elim (Bool-cases sh.body_failed) [
    | inl e ↦ let impossible = simp e at h in cc
    | inr e ↦ elim (Bool-cases r.done) [
      | inl d ↦ let impossible = simp (e, d) at h in cc
      | inr d ↦ elim (Bool-cases r.entries) [
        | inl n ↦ next_from-Opens r sh r.archive o (simp (e, d, n) at h)
        | inr n ↦ let impossible = simp (e, d, n) at h in cc
      ]
    ]
  ]

  -- It satisfies the limits, and its body may hand out `max_entry_bytes` at most.
  pub next_entry-IsGuarded :
      (r : Reader A) (sh : Shared) (o : OpenEntry B)
      → (next_entry parser patience rounds r sh).result ≡ some (ok (some o))
      → IsGuarded r.limits o × (o.body.remaining ≡ r.limits.max_entry_bytes)
  next_entry-IsGuarded r sh o h =
      let (entry, opened) = next_entry-Opens r sh o h in
      let a = open_entry-IsAccepted entry r.limits opened in
      (
        record {
          safe = a.safe;
          short = a.short;
          allowed = a.allowed;
          no_payload = a.no_payload;
          small = a.small;
          uid = a.uid;
          gid = a.gid;
        },
        ap (λ b. b.remaining) a.bounded,
      )

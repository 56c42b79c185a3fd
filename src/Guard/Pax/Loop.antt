-- ===== src/Guard/Pax/Loop.antt =====
-- The loop of `parse_pax_size` of src/guard.rs, its fuel, and its run over a body of whole records.
use etar.Prelude.{
  ℕ, zero, suc, ◌≤◌, ◌<◌, ◌≡◌, refl, ◌∙◌, false, Option, none, List, [], ◌∷◌, ◌++◌, Bytes, codes,
  All, length, drop, arith, ◌==◌, if◌then◌else◌, length-append, drop-append, length-drop, inl, inr,
  Result, ok, err, ◌>>=◌, ◌⊎◌,
}
use etar.Errors.{IoError}
use etar.Guard.Pax.{strip_prefix, parse_record, parse_records, parse_pax_size}
use etar.Guard.Pax.Records.{
  PaxRecord, record_bytes, IsWell, apply_payload, size_after, body_of, parse_record_lem,
}

Result-cases : {A E : Type 0} (r : Result A E) → ((a : A) × (r ≡ ok a)) ⊎ ((e : E) × (r ≡ err e))
Result-cases (ok a) = inl (a, refl)
Result-cases (err e) = inr (e, refl)

-- A round takes a byte at least.
parse_record-pos :
    (body : Bytes) (size : Option ℕ) {n : ℕ} {size' : Option ℕ}
    → parse_record body size ≡ ok (n, size')
    → 0 < n
unfolding parse_record
parse_record-pos body size h = ground arith

parse_records_fuel :
    (f g : ℕ) (body : Bytes) (size : Option ℕ)
    → length body ≤ f
    → length body ≤ g
    → parse_records f body size ≡ parse_records g body size
unfolding parse_records
parse_records_fuel f g [] size hf hg = refl
parse_records_fuel zero g (b ∷ body) size hf hg = absurd (omega arith)
parse_records_fuel (suc f) zero (b ∷ body) size hf hg = absurd (omega arith)
parse_records_fuel (suc f) (suc g) (b ∷ body) size hf hg =
    elim (Result-cases (parse_record (b ∷ body) size)) [
      | inl ((n, size'), e) ↦
          let pos = parse_record-pos (b ∷ body) size e in
          let short : length (drop n (b ∷ body)) ≤ length body =
            omega (arith, length-drop n (b ∷ body)) in
          rw e (parse_records_fuel f g (drop n (b ∷ body)) size' (omega arith) (omega arith))
      | inr (e, h) ↦ rw h
    ]

-- Nothing is left: the size so far; otherwise the loop's body runs on what is left and the loop goes
-- on behind the record, with no fuel to run out of.
abbrev pub read_size : Bytes → Option ℕ → Result (Option ℕ) IoError
read_size body size = parse_records (length body) body size

parse_records_step :
    (f b : ℕ) (body : Bytes) (size : Option ℕ)
    → parse_records (suc f) (b ∷ body) size
      ≡ (parse_record (b ∷ body) size >>= λ (n, size'). parse_records f (drop n (b ∷ body)) size')
unfolding parse_records
parse_records_step f b body size = refl

read_size_cons :
    (b : ℕ) (body : Bytes) (size : Option ℕ)
    → read_size (b ∷ body) size
      ≡ (parse_record (b ∷ body) size >>= λ (n, size'). read_size (drop n (b ∷ body)) size')
read_size_cons b body size =
    parse_records_step (length body) b body size
    ∙ elim (Result-cases (parse_record (b ∷ body) size)) [
      | inl ((n, size'), e) ↦
          let pos = parse_record-pos (b ∷ body) size e in
          rw e (
            parse_records_fuel (length body) (length (drop n (b ∷ body))) (drop n (b ∷ body)) size'
              (omega (arith, length-drop n (b ∷ body))) (omega arith))
      | inr (e, h) ↦ rw h
    ]

read_size_nil : (size : Option ℕ) → read_size [] size ≡ ok size
unfolding parse_records
read_size_nil size = refl

suc_not_zero : (n : ℕ) → (suc n == 0) ≡ false
suc_not_zero n = ground arith

-- The loop's equation, without fuel.
read_size_lem :
    (body : Bytes) (size : Option ℕ)
    → read_size body size ≡ (
        if length body == 0
        then ok size
        else (parse_record body size >>= λ (n, size'). read_size (drop n body) size'))
read_size_lem [] size = read_size_nil size
read_size_lem (b ∷ body) size = rw (suc_not_zero (length body)) (read_size_cons b body size)

read_size_record :
    (r : PaxRecord) (rest : Bytes) (size : Option ℕ)
    → IsWell r
    → read_size (record_bytes r ++ rest) size ≡ (
        apply_payload size (strip_prefix (codes "size=") r.payload) >>= λ size'.
        read_size rest size')
read_size_record r rest size well =
    let body = record_bytes r ++ rest in
    let some_bytes : (length body == 0) ≡ false = ground (
      arith,
      length-append (record_bytes r) rest,
      length-append r.digits (b' ' ∷ (r.payload ++ (b'\n' ∷ []))),
    ) in
    read_size_lem body size
    ∙ rw (some_bytes, parse_record_lem r rest size well)
        (elim (Result-cases (apply_payload size (strip_prefix (codes "size=") r.payload))) [
          | inl (size', e) ↦ rw (e, drop-append (record_bytes r) rest)
          | inr (e, h) ↦ rw h
        ])

read_size-body_of :
    (rs : List PaxRecord) (size : Option ℕ)
    → All IsWell rs
    → read_size (body_of rs) size ≡ size_after size rs
read_size-body_of [] size _ = read_size_nil size
read_size-body_of (r ∷ rs) size (well, wells) =
    read_size_record r (body_of rs) size well
    ∙ elim (Result-cases (apply_payload size (strip_prefix (codes "size=") r.payload))) [
      | inl (size', e) ↦ rw e (read_size-body_of rs size' wells)
      | inr (e, h) ↦ rw h
    ]

-- Over a body of whole records, `parse_pax_size` applies them in order: the last `size` record wins,
-- a `size` that is not a 64-bit decimal is malformed, and every other record is passed over.
pub parse_pax_size-body_of :
    (rs : List PaxRecord) → All IsWell rs → parse_pax_size (body_of rs) ≡ size_after none rs
unfolding parse_pax_size
parse_pax_size-body_of rs well = read_size-body_of rs none well

-- The run of the source's loop, round by round and without fuel: it returns at an empty rest, a round
-- fails, or a round gives the length of a record and the run goes on behind it.
pub data Runs : Bytes → Option ℕ → Result (Option ℕ) IoError → Type 0 where
  returns : {size : Option ℕ} → Runs [] size (ok size)
  fails :
      {b : ℕ} {body : Bytes} {size : Option ℕ} (e : IoError)
      → parse_record (b ∷ body) size ≡ err e
      → Runs (b ∷ body) size (err e)
  round :
      {b : ℕ} {body : Bytes} {size : Option ℕ} {r : Result (Option ℕ) IoError} (n : ℕ)
      (size' : Option ℕ)
      → parse_record (b ∷ body) size ≡ ok (n, size')
      → Runs (drop n (b ∷ body)) size' r
      → Runs (b ∷ body) size r

parse_records-Runs :
    (f : ℕ) (body : Bytes) (size : Option ℕ)
    → length body ≤ f
    → Runs body size (parse_records f body size)
unfolding parse_records
parse_records-Runs f [] size enough = returns
parse_records-Runs zero (b ∷ body) size enough = absurd (omega arith)
parse_records-Runs (suc f) (b ∷ body) size enough =
    elim (Result-cases (parse_record (b ∷ body) size)) [
      | inl ((n, size'), e) ↦
          let pos = parse_record-pos (b ∷ body) size e in
          rw e (
            round n size' e (
              parse_records-Runs f (drop n (b ∷ body)) size'
                (omega (arith, length-drop n (b ∷ body)))))
      | inr (e, h) ↦ rw h (fails e h)
    ]

-- On every body the loop of `parse_pax_size` runs to an end: there is a finite run of its rounds, each
-- of which starts where the record before it ends, and what `parse_pax_size` returns is the result of
-- that run, so its fuel is never what ends it.
pub parse_pax_size-Runs : (body : Bytes) → Runs body none (parse_pax_size body)
unfolding parse_pax_size
parse_pax_size-Runs body = parse_records-Runs (length body) body none (omega arith)

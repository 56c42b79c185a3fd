-- ===== src/Reader/Trailer.antt =====
-- The loop of `verify_end` of src/reader.rs over a source that knows its history.
use etar.Prelude.{
  ℕ, zero, suc, ◌+◌, ◌≤◌, ◌≡◌, refl, ap, sym, ◌∙◌, Bool, true, false, not, Option, none, some, [],
  ◌∷◌, ◌++◌, append_assoc, Bytes, length, length-append, any, all, ◌==◌, Result, ok, err, arith,
  inl, inr, ◌⊎◌,
}
use etar.Errors.{Error, IoError}
use etar.Io.{Shared, Poller}
use etar.Io.Await.{read}
use etar.Io.Log.{IsLogged}
use etar.Io.Reads.{read-Reads}
use etar.Reader.{BlockStep, trail, ended, block_step, verify_blocks}

abbrev pub is_zero : ℕ → Bool
is_zero byte = byte == 0

all-append :
    (xs ys : Bytes) → all is_zero xs ≡ true → all is_zero ys ≡ true → all is_zero (xs ++ ys) ≡ true
all-append [] ys hx hy = hy
all-append (x ∷ xs) ys hx hy = ground (arith, all-append xs ys)

none_nonzero : (xs : Bytes) → any (λ byte. not (byte == 0)) xs ≡ false → all is_zero xs ≡ true
none_nonzero [] h = refl
none_nonzero (x ∷ xs) h = ground (arith, none_nonzero xs)

-- A block that lets the loop go on, and one that ends it with success.
block_step-trail :
    (max trailing : ℕ) (sh : Shared) (o : Option (Result Bytes IoError)) {n : ℕ}
    → block_step max trailing sh o ≡ trail n
    → (block : Bytes) × (o ≡ some (ok block))
      × (all is_zero block ≡ true)
      × (n ≤ trailing + length block)
unfolding block_step
block_step-trail max trailing sh none h = cc
block_step-trail max trailing sh (some (err e)) h = cc
block_step-trail max trailing sh (some (ok block)) h =
    (block, refl, none_nonzero block (ground arith), ground arith)

block_step-ended :
    (max trailing : ℕ) (sh : Shared) (o : Option (Result Bytes IoError))
    → block_step max trailing sh o ≡ ended (some (ok tt))
    → (o ≡ some (ok [])) × (512 ≤ trailing)
unfolding block_step
block_step-ended max trailing sh none h = cc
block_step-ended max trailing sh (some (err e)) h = cc
block_step-ended max trailing sh (some (ok [])) h = (refl, ground arith)
block_step-ended max trailing sh (some (ok (b ∷ bs))) h = absurd (ground arith)

BlockStep-cases :
    (b : BlockStep)
    → ((n : ℕ) × (b ≡ trail n)) ⊎ ((r : Option (Result (Unit {0}) Error)) × (b ≡ ended r))
BlockStep-cases (trail n) = inl (n, refl)
BlockStep-cases (ended r) = inr (r, refl)

-- The reads of the loop from `s` on: each but the last returns a block, and the next starts where it left
-- the source; the last returns nothing and leaves the source in the state `last`. `tail` is what they
-- returned.
pub data BlockRun {S : Type 0} (poll : Poller S) (patience : ℕ)
    : S → Shared → Bytes → S → Type 0 where
  no_block :
      {s : S} {sh : Shared}
      → (read poll patience s sh 8192).result ≡ some (ok [])
      → BlockRun poll patience s sh [] (read poll patience s sh 8192).state
  one_block :
      {s last : S} {sh : Shared} {tail : Bytes} (block : Bytes)
      → (read poll patience s sh 8192).result ≡ some (ok block)
      → BlockRun poll patience
          (read poll patience s sh 8192).state
          (read poll patience s sh 8192).shared
          tail
          last
      → BlockRun poll patience s sh (block ++ tail) last

module _ {S : Type 0} {poll : Poller S} {log : S → Bytes} (logged : IsLogged poll log)
    (patience max : ℕ) where
  -- What the loop has read from `s` on: zeros, to the end of the source, and with `trailing` bytes before them
  -- 512 bytes at least.
  pub record IsTrailer (s : S) (sh : Shared) (trailing : ℕ) : Type 0 where
    pub last : S
    pub tail : Bytes
    pub logged_tail : log last ≡ log s ++ tail
    pub zeros : all is_zero tail ≡ true
    pub long : 512 ≤ trailing + length tail
    pub run : BlockRun poll patience s sh tail last

  more-IsTrailer :
      (s : S) (sh : Shared) (trailing n : ℕ) (block : Bytes)
      → (let a = read poll patience s sh 8192 in
          a.result ≡ some (ok block)
          → log a.state ≡ log s ++ block
          → all is_zero block ≡ true
          → n ≤ trailing + length block
          → IsTrailer a.state a.shared n
          → IsTrailer s sh trailing)
  more-IsTrailer s sh trailing n block r e z fits t = record {
    last = t.last;
    tail = block ++ t.tail;
    logged_tail = t.logged_tail ∙ (ap (λ x. x ++ t.tail) e ∙ append_assoc (log s) block t.tail);
    zeros = all-append block t.tail z (t.zeros);
    long = omega (arith, length-append block t.tail, t.long);
    run = one_block block r t.run;
  }

  verify_blocks-IsTrailer :
      (rounds : ℕ) (s : S) (sh : Shared) (trailing : ℕ)
      → (verify_blocks poll patience max rounds s sh trailing).result ≡ some (ok tt)
      → IsTrailer s sh trailing
  unfolding verify_blocks
  verify_blocks-IsTrailer zero s sh trailing h = cc
  verify_blocks-IsTrailer (suc rounds) s sh trailing h =
      let a = read poll patience s sh 8192 in
      let reads = read-Reads logged patience s sh 8192 in
      elim (BlockStep-cases (block_step max trailing a.shared a.result)) [
        | inl (n, e) ↦
            let (block, r, z, fits) = block_step-trail max trailing a.shared a.result e in
            more-IsTrailer s sh trailing n block r
              (reads.logged_bytes ∙ ap (λ x. log s ++ x) (sym (reads.returned block r))) z fits
              (verify_blocks-IsTrailer rounds a.state a.shared n (rw (e, verify_blocks) at h))
        | inr (x, e) ↦
            let (r, long) =
              block_step-ended max trailing a.shared a.result
                (e ∙ ap (λ y. ended y) (rw (e, verify_blocks) at h)) in
            record {
              last = a.state;
              tail = [];
              logged_tail = reads.logged_bytes ∙ ap (λ x. log s ++ x) (sym (reads.returned [] r));
              zeros = refl;
              long = omega (arith, long);
              run = no_block r;
            }
      ]

  -- If the loop of `verify_end` succeeds, its reads, each of which starts where the one before it left
  -- the source, have returned at least 512 bytes, all of them zero, and the last of them, into a buffer
  -- of 8192 bytes, returned nothing. The source keeps the contract of `AsyncRead` and knows its history.
  pub verify_blocks_lem :
      (rounds : ℕ) (s : S) (sh : Shared)
      → (verify_blocks poll patience max rounds s sh 0).result ≡ some (ok tt)
      → IsTrailer s sh 0
  verify_blocks_lem rounds s sh h = verify_blocks-IsTrailer rounds s sh 0 h

-- ===== src/Compress/Peek.antt =====
-- The bytes that the peek of src/compress.rs takes from the source.
use etar.Prelude.{
  ℕ, zero, suc, ◌+◌, ◌-◌, ◌≤◌, ◌<◌, ◌≡◌, refl, sym, ap, subst, ◌∙◌, false, Option, none, some, [],
  ◌∷◌, ◌++◌, append_assoc, append-nil, Bytes, length, ltb, ◌==◌, Result, ok, err, arith,
  length-append, Bool-cases, inl, inr,
}
use etar.Errors.{IoError}
use etar.Settings.{peek_len}
use etar.Io.{Shared, Poller}
use etar.Io.Await.{Awaited, read}
use etar.Io.Log.{IsLogged}
use etar.Io.Reads.{Reads, read-Reads}
use etar.Compress.{peek_read, peek}

-- A read with room for what is missing behind `magic`.
abbrev pub ask : {S : Type 0} → Poller S → ℕ → Bytes → S → Shared → Awaited S (Result Bytes IoError)
ask poll patience magic s sh = read poll patience s sh (peek_len - length magic)

-- The reads of a peek that has `magic` so far and ends with `out` and the source in the state `last`: each
-- has room for what is missing, and the one behind a read that returned bytes starts where that read
-- left the source. There are no more once nothing is missing, or when a read returns nothing.
pub data PeekRun {S : Type 0} (poll : Poller S) (patience : ℕ)
    : Bytes → S → Shared → Bytes → S → Type 0 where
  full :
      {magic : Bytes} {s : S} {sh : Shared}
      → length magic ≡ peek_len
      → PeekRun poll patience magic s sh magic s
  at_end :
      {magic : Bytes} {s : S} {sh : Shared}
      → (ask poll patience magic s sh).result ≡ some (ok [])
      → PeekRun poll patience magic s sh magic (ask poll patience magic s sh).state
  piece :
      {magic out : Bytes} {s last : S} {sh : Shared} (bs : Bytes)
      → 0 < length bs
      → (ask poll patience magic s sh).result ≡ some (ok bs)
      → PeekRun poll patience
          (magic ++ bs)
          (ask poll patience magic s sh).state
          (ask poll patience magic s sh).shared
          out
          last
      → PeekRun poll patience magic s sh out last

-- A peek that returned `magic`: it is what was read, at most four bytes, and the reads stopped at four
-- bytes or where the source returned nothing.
pub record IsPeek {S : Type 0} (log : S → Bytes) (poll : Poller S) (patience : ℕ) (start : Bytes)
    (s : S) (sh : Shared) (last : S) (magic : Bytes) : Type 0 where
  pub behind : Bytes
  pub magic_eq : magic ≡ start ++ behind
  pub logged : log last ≡ log s ++ behind
  pub short : length magic ≤ peek_len
  pub run : PeekRun poll patience start s sh magic last

suc_not_zero : (n : ℕ) → (suc n == 0) ≡ false
suc_not_zero n = ground arith

module _ {S : Type 0} {poll : Poller S} {log : S → Bytes} (logged : IsLogged poll log)
    (patience : ℕ) where
  -- The loop has ended by its test.
  full-IsPeek :
      (magic out : Bytes) (s : S) (sh : Shared)
      → length magic ≤ peek_len
      → peek_len ≤ length magic
      → out ≡ magic
      → IsPeek log poll patience magic s sh s out
  full-IsPeek magic out s sh small enough e = record {
    behind = [];
    magic_eq = e ∙ sym (append-nil magic);
    logged = sym (append-nil (log s));
    short = rw e small;
    run = subst (λ x. PeekRun poll patience magic s sh x s) (sym e) (full (omega arith));
  }

  -- A round that reads some bytes, and goes on.
  more-IsPeek :
      (magic bs out : Bytes) (s last : S) (sh : Shared)
      → 0 < length bs
      → (let a = read poll patience s sh (peek_len - length magic) in
          a.result ≡ some (ok bs)
          → log a.state ≡ log s ++ bs
          → IsPeek log poll patience (magic ++ bs) a.state a.shared last out
          → IsPeek log poll patience magic s sh last out)
  more-IsPeek magic bs out s last sh some_ r e p = record {
    behind = bs ++ p.behind;
    magic_eq = p.magic_eq ∙ append_assoc magic bs p.behind;
    logged = p.logged ∙ (ap (λ x. x ++ p.behind) e ∙ append_assoc (log s) bs p.behind);
    short = p.short;
    run = piece bs some_ r p.run;
  }

  -- A round that reads nothing: the source has ended.
  end-IsPeek :
      (magic out : Bytes) (s : S) (sh : Shared)
      → length magic ≤ peek_len
      → (let a = read poll patience s sh (peek_len - length magic) in
          log a.state ≡ log s ++ []
          → a.result ≡ some (ok [])
          → out ≡ magic
          → IsPeek log poll patience magic s sh a.state out)
  end-IsPeek magic out s sh small e r same = record {
    behind = [];
    magic_eq = same ∙ sym (append-nil magic);
    logged = e;
    short = rw same small;
    run =
        subst
          (λ x.
            PeekRun poll patience magic s sh x
              (read poll patience s sh (peek_len - length magic)).state)
          (sym same) (at_end r);
  }

  some_ok :
      (x y : Bytes) → ◌≡◌ {A = Option (Result Bytes IoError)} (some (ok x)) (some (ok y)) → y ≡ x
  some_ok x y h = cc

  peek_read-IsPeek :
      (more : Bytes → S → Shared → Awaited S (Result Bytes IoError)) (magic out : Bytes) (s : S)
      (sh : Shared) (o : Option (Result Bytes IoError))
      → length magic < peek_len
      → (let a = read poll patience s sh (peek_len - length magic) in
          Reads logged s (peek_len - length magic) a
          → a.result ≡ o
          → ((bs : Bytes)
              → 0 < length bs
              → length bs ≤ peek_len - length magic
              → (more (magic ++ bs) a.state a.shared).result ≡ some (ok out)
              → IsPeek log poll patience
                  (magic ++ bs)
                  a.state
                  a.shared
                  (more (magic ++ bs) a.state a.shared).state
                  out)
          → (peek_read poll patience more magic a o).result ≡ some (ok out)
          → IsPeek log poll patience magic s sh (peek_read poll patience more magic a o).state out)
  unfolding peek_read
  peek_read-IsPeek more magic out s sh none room reads e next h = absurd (cc (sym e ∙ h))
  peek_read-IsPeek more magic out s sh (some (err x)) room reads e next h = absurd (cc (sym e ∙ h))
  peek_read-IsPeek more magic out s sh (some (ok [])) room reads e next h =
      let a = read poll patience s sh (peek_len - length magic) in
      end-IsPeek magic out s sh (omega arith)
        (reads.logged_bytes ∙ ap (λ x. log s ++ x) (sym (reads.returned [] e))) e (some_ok _ _ h)
  peek_read-IsPeek more magic out s sh (some (ok (b ∷ bs))) room reads e next h =
      let a = read poll patience s sh (peek_len - length magic) in
      let same = reads.returned (b ∷ bs) e in
      rw (suc_not_zero (length bs)) (
        more-IsPeek magic (b ∷ bs) out s _ sh (omega arith) e
          (reads.logged_bytes ∙ ap (λ x. log s ++ x) (sym same))
          (next (b ∷ bs) (omega arith) (omega (arith, reads.fits, ap length same))
            (rw (suc_not_zero (length bs)) at h)))

  peek-IsPeek :
      (fuel : ℕ) (magic : Bytes) (s : S) (sh : Shared) (out : Bytes)
      → length magic ≤ peek_len
      → peek_len ≤ length magic + fuel
      → (peek poll patience fuel magic s sh).result ≡ some (ok out)
      → IsPeek log poll patience magic s sh (peek poll patience fuel magic s sh).state out
  unfolding peek
  peek-IsPeek zero magic s sh out small enough h =
      full-IsPeek magic out s sh small (omega arith) (some_ok _ _ h)
  peek-IsPeek (suc fuel) magic s sh out small enough h =
      let n = peek_len - length magic in
      let a = read poll patience s sh n in
      elim (Bool-cases (ltb (length magic) peek_len)) [
        | inl e ↦ rw e (
            peek_read-IsPeek (peek poll patience fuel) magic out s sh a.result (ground arith)
              (read-Reads logged patience s sh n) refl
              (λ bs some_ fits h'.
                peek-IsPeek fuel (magic ++ bs) a.state a.shared out
                  (omega (arith, length-append magic bs)) (omega (arith, length-append magic bs))
                  h')
              (rw e at h))
        | inr e ↦ rw e (full-IsPeek magic out s sh small (ground arith) (some_ok _ _ (rw e at h)))
      ]

  -- The peek loses no byte and stops in time: if it returns `magic`, that is exactly what has been read
  -- from the source, at most four bytes. Its reads follow one another, each with room for what is
  -- missing, and the last of them brought the fourth byte or, if there are fewer, returned nothing. The
  -- source keeps the contract of `AsyncRead` and knows its history.
  pub peek_lem :
      (s : S) (sh : Shared) (magic : Bytes)
      → (peek poll patience peek_len [] s sh).result ≡ some (ok magic)
      → IsPeek log poll patience [] s sh (peek poll patience peek_len [] s sh).state magic
  peek_lem s sh magic h = peek-IsPeek peek_len [] s sh magic (omega arith) (omega arith) h

-- ===== src/Io/Contract.antt =====
-- What tokio documents of `AsyncRead`: a poll appends to the buffer, within its size, and a poll
-- that is not `Ready(Ok(()))` appends nothing.
use etar.Prelude.{
  ℕ, sym, ◌-◌, ◌≤◌, ◌≡◌, refl, Bool, true, false, [], ◌++◌, Bytes, length, take, drop, leb, ok, err,
  append-nil, length-take, length-append, arith, if◌then◌else◌, take-append,
}
use etar.Errors.{IoError}
use etar.Io.{set_filled, Poll, pending, ready, ReadBuf, Shared, Turn, Poller, remaining, put_slice}

-- `Ready(Ok(()))`.
abbrev pub is_ready_ok : Poll → Bool
is_ready_ok pending = false
is_ready_ok (ready (ok u)) = true
is_ready_ok (ready (err e)) = false

-- `Ready(Err(_))`.
abbrev pub is_error : Poll → Bool
is_error pending = false
is_error (ready (ok u)) = false
is_error (ready (err e)) = true

-- The turn `t` of a poll with the buffer `b` handed out `bs`.
pub record Hands {S : Type 0} (b : ReadBuf) (t : Turn S) (bs : Bytes) : Type 0 where
  pub filled : t.buf.filled ≡ b.filled ++ bs
  pub same_size : t.buf.capacity ≡ b.capacity
  pub fits : length bs ≤ remaining b
  pub quiet : is_ready_ok t.poll ≡ false → bs ≡ []

abbrev pub IsLawful : {S : Type 0} → Poller S → Type 0
IsLawful {S} poll = (s : S) (sh : Shared) (b : ReadBuf) → (bs : Bytes) × Hands b (poll s sh b) bs

-- A reader that leaves a shared count alone.
abbrev pub KeepsDecoded : {S : Type 0} → Poller S → Type 0
KeepsDecoded {S} poll =
    (s : S) (sh : Shared) (b : ReadBuf) → (poll s sh b).shared.decoded ≡ sh.decoded

abbrev pub KeepsEncoded : {S : Type 0} → Poller S → Type 0
KeepsEncoded {S} poll =
    (s : S) (sh : Shared) (b : ReadBuf) → (poll s sh b).shared.encoded ≡ sh.encoded

-- What the code computes from the filled lengths before and after a poll.
pub filled-difference :
    {S : Type 0} {b : ReadBuf} {t : Turn S} {bs : Bytes}
    → Hands b t bs
    → length t.buf.filled - length b.filled ≡ length bs
filled-difference {b} {bs} h = rw (h.filled) (omega (arith, length-append b.filled bs))

-- Two turns that hand out nothing: a reader that is not polled, and a layer that takes back what
-- the reader under it handed out.
module _ {S : Type 0} where
  pub stopped-Hands :
      (s : S) (sh : Shared) (b : ReadBuf) (e : IoError)
      → Hands b (record { state = s; shared = sh; buf = b; poll = ready (err e) }) []
  stopped-Hands s sh b e = record {
    filled = sym (append-nil b.filled);
    same_size = refl;
    fits = omega arith;
    quiet = λ q. refl;
  }

  pub cut-Hands :
      {R : Type 0} {b : ReadBuf} {t : Turn R} {bs : Bytes}
      → Hands b t bs
      → (s : S) (sh : Shared) (e : IoError)
      → Hands b
          (record {
            state = s;
            shared = sh;
            buf = set_filled t.buf (length b.filled);
            poll = ready (err e);
          })
          []
  cut-Hands {b} {bs} h s sh e = record {
    filled = rw (h.filled, take-append b.filled bs) (sym (append-nil b.filled));
    same_size = h.same_size;
    fits = omega arith;
    quiet = λ q. refl;
  }

-- An in-memory reader that hands out at most `step` bytes at a time.
pub record Memory : Type 0 where
  pub left : Bytes
  pub step : ℕ

abbrev pub chunk : Memory → ReadBuf → ℕ
chunk m b = if leb m.step (remaining b) then m.step else remaining b

unfoldable pub poll_memory : Poller Memory
poll_memory m sh b = record {
  state = record m { left = drop (chunk m b) m.left };
  shared = sh;
  buf = put_slice b (take (chunk m b) m.left);
  poll = ready (ok tt);
}

take_fits : (n r : ℕ) (xs : Bytes) → n ≤ r → length (take n xs) ≤ r
take_fits n r xs h = omega (arith, length-take n xs)

chunk-le : (m : Memory) (b : ReadBuf) → chunk m b ≤ remaining b
chunk-le m b = ground arith

pub memory-IsLawful : IsLawful poll_memory
unfolding poll_memory
memory-IsLawful m sh b = (
  take (chunk m b) m.left,
  record {
    filled = refl;
    same_size = refl;
    fits = take_fits (chunk m b) (remaining b) m.left (chunk-le m b);
    quiet = λ h. cc;
  },
)

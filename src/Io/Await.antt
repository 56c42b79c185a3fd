-- ===== src/Io/Await.antt =====
-- `AsyncReadExt::read` and `.await`: a future is polled again while it is not ready. The caller
-- drops it after `patience` polls, which is how a read is cancelled.
use etar.Prelude.{ℕ, zero, suc, Option, none, some, Bytes, Result, ok, err}
use etar.Errors.{IoError}
use etar.Io.{Poll, pending, ready, Shared, Turn, Poller, empty_buf}

-- `none`: the future was dropped before it was ready.
pub record Awaited (S : Type 0) (A : Type 0) : Type 0 where
  pub state : S
  pub shared : Shared
  pub result : Option A

module _ {S : Type 0} (poll : Poller S) where
  unfoldable pub await_turn :
      (S → Shared → Awaited S (Result Bytes IoError))
      → Turn S
      → Poll
      → Awaited S (Result Bytes IoError)
  await_turn again t pending = again t.state t.shared
  await_turn again t (ready (ok u)) = record {
    state = t.state;
    shared = t.shared;
    result = some (ok t.buf.filled);
  }
  await_turn again t (ready (err e)) = record {
    state = t.state;
    shared = t.shared;
    result = some (err e);
  }

  -- A read into a buffer of `size` bytes: the bytes read.
  unfoldable pub read : ℕ → S → Shared → ℕ → Awaited S (Result Bytes IoError)
  read zero s sh size = record { state = s; shared = sh; result = none }
  read (suc patience) s sh size =
      let t = poll s sh (empty_buf size) in
      await_turn (λ s' sh'. read patience s' sh' size) t t.poll

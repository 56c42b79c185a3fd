-- ===== src/Io/Log.antt =====
-- A reader whose state knows the bytes that it has handed out so far, to speak about histories.
use etar.Prelude.{◌≡◌, ◌++◌, Bytes, length, drop, drop-append}
use etar.Io.{ReadBuf, Shared, Turn, Poller}
use etar.Io.Contract.{Hands, IsLawful}

-- The contract of `AsyncRead`, with the bytes of each poll put behind the log.
pub record Logs {R : Type 0} (log : R → Bytes) (s : R) (b : ReadBuf) (t : Turn R) : Type 0 where
  pub bytes : Bytes
  pub hands : Hands b t bytes
  pub logged : log t.state ≡ log s ++ bytes

abbrev pub IsLogged : {R : Type 0} → Poller R → (R → Bytes) → Type 0
IsLogged {R} poll log = (s : R) (sh : Shared) (b : ReadBuf) → Logs log s b (poll s sh b)

-- Any reader, with a log beside its state.
pub record Recorded (S : Type 0) : Type 0 where
  pub state : S
  pub log : Bytes

abbrev pub log_of : {S : Type 0} → Recorded S → Bytes
log_of r = r.log

unfoldable pub poll_recorded : {S : Type 0} → Poller S → Poller (Recorded S)
poll_recorded poll r sh b =
    let t = poll r.state sh b in
    record {
      state = record { state = t.state; log = r.log ++ drop (length b.filled) t.buf.filled };
      shared = t.shared;
      buf = t.buf;
      poll = t.poll;
    }

pub recorded-IsLogged :
    {S : Type 0} (poll : Poller S) → IsLawful poll → IsLogged (poll_recorded poll) log_of
unfolding poll_recorded
recorded-IsLogged poll lawful r sh b =
    let (bs, h) = lawful r.state sh b in
    record {
      bytes = bs;
      hands = record { filled = h.filled; same_size = h.same_size; fits = h.fits; quiet = h.quiet };
      logged = rw (h.filled, drop-append b.filled bs);
    }

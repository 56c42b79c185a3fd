-- ===== src/Pack/Body.antt =====
-- `Exact` of src/pack.rs: the reader around a file's body, which knows its declared length.
use etar.Prelude.{ℕ, ◌+◌, ◌-◌, Bool, true, false, length, ltb, ◌==◌, if◌then◌else◌, ok, err}
use etar.Errors.{IoError, plain, invalid_data}
use etar.Io.{Poll, pending, ready, Turn, Poller, set_filled}

-- `mismatch` is the caller's flag, which `append_file` reads afterwards.
pub record Exact (R : Type 0) : Type 0 where
  pub inner : R
  pub remaining : ℕ
  pub mismatch : Bool

abbrev pub new_exact : {R : Type 0} → R → ℕ → Exact R
new_exact inner len = record { inner = inner; remaining = len; mismatch = false }

abbrev pub length_mismatch : IoError
length_mismatch = plain invalid_data "body length mismatch"

module _ {R : Type 0} where
  -- A poll's end, on what the body's poll returned.
  unfoldable pub exact_read : Exact R → ℕ → Turn R → Poll → Turn (Exact R)
  exact_read x before t pending = record {
    state = record x { inner = t.state };
    shared = t.shared;
    buf = t.buf;
    poll = pending;
  }
  exact_read x before t (ready (err e)) = record {
    state = record x { inner = t.state };
    shared = t.shared;
    buf = t.buf;
    poll = ready (err e);
  }
  exact_read x before t (ready (ok u)) =
      let read = length t.buf.filled - before in
      if read == 0
      then record {
        state = record x { inner = t.state; mismatch = true };
        shared = t.shared;
        buf = t.buf;
        poll = ready (err length_mismatch);
      }
      else if ltb x.remaining read
      then record {
        state = record x { inner = t.state; mismatch = true };
        shared = t.shared;
        buf = set_filled t.buf (before + x.remaining);
        poll = ready (err length_mismatch);
      }
      else record {
        state = record x { inner = t.state; remaining = x.remaining - read };
        shared = t.shared;
        buf = t.buf;
        poll = ready (ok tt);
      }

  unfoldable pub poll_exact : Poller R → Poller (Exact R)
  poll_exact poll x sh buf =
      if x.remaining == 0
      then record { state = x; shared = sh; buf = buf; poll = ready (ok tt) }
      else (let t = poll x.inner sh buf in exact_read x (length buf.filled) t t.poll)

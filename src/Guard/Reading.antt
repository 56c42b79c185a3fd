-- ===== src/Guard/Reading.antt =====
-- `HeaderGuard::poll_read` and `read_data` of src/guard.rs.
use etar.Prelude.{
  ℕ, zero, suc, ◌+◌, ◌-◌, Option, none, some, ◌++◌, Bytes, length, take, drop, min, ltb, ◌==◌,
  if◌then◌else◌, ok, err,
}
use etar.Io.{Poll, pending, ready, ReadBuf, Shared, Turn, Poller, remaining, empty_buf, put_slice}
use etar.Guard.{HeaderGuard, Outcome, inspect, feed_pax, end_data}

-- Bytes read into a slice of the header that begins at `at`.
abbrev pub overwrite : Bytes → ℕ → Bytes → Bytes
overwrite header at bytes = take at header ++ (bytes ++ drop (at + length bytes) header)

-- A poll's end, from a method's outcome.
abbrev pub finish : {R : Type 0} → Outcome R → Shared → ReadBuf → Turn (HeaderGuard R)
finish (g, r) sh out = record { state = g; shared = sh; buf = out; poll = ready r }

abbrev pub return : {R : Type 0} → HeaderGuard R → Shared → ReadBuf → Poll → Turn (HeaderGuard R)
return g sh out p = record { state = g; shared = sh; buf = out; poll = p }

-- What filling the header comes to: it is full, or the poll returns.
pub record Filling (R : Type 0) : Type 0 where
  pub guard : HeaderGuard R
  pub shared : Shared
  pub returned : Option Poll

abbrev pub stop : {R : Type 0} → HeaderGuard R → Shared → Poll → Filling R
stop g sh p = record { guard = g; shared = sh; returned = some p }

module _ {R : Type 0} where
  -- `read_data` after its poll, on what the poll returned.
  unfoldable pub data_read : HeaderGuard R → ReadBuf → Turn R → Poll → Turn (HeaderGuard R)
  data_read g out t pending = return (record g { inner = t.state }) t.shared out pending
  data_read g out t (ready (err e)) =
      return (record g { inner = t.state }) t.shared out (ready (err e))
  data_read g out t (ready (ok u)) =
      let bytes = t.buf.filled in
      let fed = feed_pax (record g { inner = t.state }) bytes g.pax_body in
      finish (end_data (record fed { data_remaining = g.data_remaining - length bytes })) t.shared
        (put_slice out bytes)

  -- One poll of the loop that fills the header, on what it returned; `more` is the rest of the loop.
  unfoldable pub fill_read :
      (HeaderGuard R → Shared → Filling R) → HeaderGuard R → Turn R → Poll → Filling R
  fill_read more g t pending = stop g t.shared pending
  fill_read more g t (ready (err e)) = stop g t.shared (ready (err e))
  fill_read more g t (ready (ok u)) =
      let count = length t.buf.filled in
      if count == 0
      then stop g t.shared (ready (ok tt))
      else more (record g { filled = g.filled + count }) t.shared

  -- The end of `poll_read`: the header's next bytes are handed out, and the last of them starts the
  -- entry's data.
  unfoldable pub emit : HeaderGuard R → Shared → ReadBuf → Turn (HeaderGuard R)
  emit g sh out =
      let count = min (remaining out) (512 - g.emitted) in
      let out' = put_slice out (take count (drop g.emitted g.header)) in
      let g' = record g { emitted = g.emitted + count } in
      if g'.emitted == 512
      then (let next = record g' {
        filled = 0;
        emitted = 0;
        data_remaining = g'.next_data;
        next_data = 0;
        trailer = g'.next_trailer;
      } in
          finish (end_data next) sh out')
      else return g' sh out' (ready (ok tt))

  -- `if this.emitted == 0 { this.inspect()?; }` and the rest, on what `inspect` came to.
  unfoldable pub emit_inspected : Outcome R → Shared → ReadBuf → Turn (HeaderGuard R)
  emit_inspected (g, ok u) sh out = emit g sh out
  emit_inspected (g, err e) sh out = return g sh out (ready (err e))

  module _ (header_size : Bytes → Option ℕ) where
    -- `poll_read` after the loop.
    unfoldable pub header_read : Filling R → ReadBuf → Turn (HeaderGuard R)
    header_read f out = elim f.returned [
      | some p ↦ return f.guard f.shared out p
      | none ↦
          if f.guard.emitted == 0
          then emit_inspected (inspect header_size f.guard) f.shared out
          else emit f.guard f.shared out
    ]

module _ {R : Type 0} (poll : Poller R) where
  unfoldable pub read_data : HeaderGuard R → Shared → ReadBuf → Turn (HeaderGuard R)
  read_data g sh out =
      let t = poll g.inner sh (empty_buf (min g.data_remaining (remaining out))) in
      data_read g out t t.poll

  -- `while this.filled < 512`, with fuel: every round but the last reads a byte at least.
  unfoldable pub fill : ℕ → HeaderGuard R → Shared → Filling R
  fill zero g sh = record { guard = g; shared = sh; returned = none }
  fill (suc fuel) g sh =
      let t = poll g.inner sh (empty_buf (512 - g.filled)) in
      let read = record g { inner = t.state; header = overwrite g.header g.filled t.buf.filled } in
      let round = fill_read (fill fuel) read t t.poll in
      if ltb g.filled 512 then round else record { guard = g; shared = sh; returned = none }

  module _ (header_size : Bytes → Option ℕ) where
    unfoldable pub poll_guard : Poller (HeaderGuard R)
    poll_guard g sh out =
        if remaining out == 0
        then return g sh out (ready (ok tt))
        else if g.trailer
        then (let t = poll g.inner sh out in
            return (record g { inner = t.state }) t.shared t.buf t.poll)
        else if ltb 0 g.data_remaining
        then read_data g sh out
        else header_read header_size (fill 512 g sh) out

-- ===== src/Open/Meter.antt =====
-- `Meter` of src/open.rs: it counts the source's bytes as they are pulled, and marks transport errors.
-- The count is the shared `encoded`.
use etar.Prelude.{
  Bytes, ℕ, ◌-◌, ◌<◌, ◌≡◌, refl, sym, ◌∙◌, [], ◌∷◌, length, ltb, ok, err, length-append, arith,
  if◌then◌else◌, List,
}
use etar.Errors.{io, custom, kind}
use etar.Io.{ReadBuf, Poll, pending, ready, Shared, Poller, fetch_add, u64_mod, drain, empty_buf}
use etar.Io.Contract.{Hands, IsLawful, KeepsEncoded, is_ready_ok}

pub record Meter (R : Type 0) : Type 0 where
  pub inner : R

-- A source error, inside an error of its own kind that the parser's caller can recognise.
unfoldable pub mark_io : Poll → Poll
mark_io pending = pending
mark_io (ready (ok u)) = ready (ok u)
mark_io (ready (err e)) = ready (err (custom (kind e) (io e)))

unfoldable pub charge_encoded : ℕ → Shared → Shared
charge_encoded read sh =
    if ltb 0 read then record sh { encoded = fetch_add sh.encoded read } else sh

unfoldable pub poll_meter : {R : Type 0} → Poller R → Poller (Meter R)
poll_meter poll m sh buf =
    let before = length buf.filled in
    let t = poll m.inner sh buf in
    let read = length t.buf.filled - before in
    record {
      state = record { inner = t.state };
      shared = charge_encoded read t.shared;
      buf = t.buf;
      poll = mark_io t.poll;
    }

is_ready_ok-mark_io : (p : Poll) → is_ready_ok (mark_io p) ≡ is_ready_ok p
unfolding mark_io
is_ready_ok-mark_io pending = refl
is_ready_ok-mark_io (ready (ok u)) = refl
is_ready_ok-mark_io (ready (err e)) = refl

charge_encoded_lem :
    (n : ℕ) (sh : Shared)
    → sh.encoded < u64_mod
    → (charge_encoded n sh).encoded ≡ fetch_add sh.encoded n
unfolding charge_encoded
charge_encoded_lem n sh small = ground arith

module _ {R : Type 0} (poll : Poller R) where
  -- The meter hands out what the source does.
  pub poll_meter-Hands :
      (m : Meter R) (sh : Shared) (b : ReadBuf) {bs : Bytes}
      → Hands b (poll m.inner sh b) bs
      → Hands b (poll_meter poll m sh b) bs
  unfolding poll_meter
  poll_meter-Hands m sh b h = record {
    filled = h.filled;
    same_size = h.same_size;
    fits = h.fits;
    quiet = λ q. h.quiet (sym (is_ready_ok-mark_io _) ∙ q);
  }

  pub poll_meter-IsLawful : IsLawful poll → IsLawful (poll_meter poll)
  poll_meter-IsLawful lawful m sh b =
      let (bs, h) = lawful m.inner sh b in (bs, poll_meter-Hands m sh b h)

  -- One poll charges the bytes that it hands out, whatever it returns.
  poll_meter-charges :
      KeepsEncoded poll
      → (m : Meter R) (sh : Shared) (n : ℕ) → sh.encoded < u64_mod
      → (poll_meter poll m sh (empty_buf n)).shared.encoded
        ≡ fetch_add sh.encoded (length (poll_meter poll m sh (empty_buf n)).buf.filled)
  unfolding poll_meter
  poll_meter-charges keeps m sh n small =
      let k = keeps m.inner sh (empty_buf n) in
      let t = poll m.inner sh (empty_buf n) in
      rw (charge_encoded_lem (length t.buf.filled - 0) t.shared (rw k small), k) (omega arith)

  -- Over any sequence of polls, each with an empty buffer of a size of its own, the shared count of
  -- encoded bytes grows by the number of bytes handed out, modulo 2 ^ 64, also where polls fail. The
  -- source leaves the count alone, and the count is a 64-bit number.
  pub drain-poll_meter-encoded :
      KeepsEncoded poll
      → (m : Meter R) (sh : Shared) (ns : List ℕ) → sh.encoded < u64_mod
      → (drain (poll_meter poll) m sh ns).after.encoded
        ≡ fetch_add sh.encoded (length (drain (poll_meter poll) m sh ns).bytes)
  unfolding drain
  drain-poll_meter-encoded keeps m sh [] small = omega arith
  drain-poll_meter-encoded keeps m sh (n ∷ ns) small =
      let t = poll_meter poll m sh (empty_buf n) in
      let rest = drain (poll_meter poll) t.state t.shared ns in
      omega (
        arith,
        poll_meter-charges keeps m sh n small,
        drain-poll_meter-encoded keeps t.state t.shared ns
            (rw (poll_meter-charges keeps m sh n small) (omega arith)),
        length-append t.buf.filled rest.bytes,
      )

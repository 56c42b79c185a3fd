-- ===== src/Reader/Open/Layers.antt =====
-- The bytes that come through the layers of `Reader::open` of src/reader.rs to the tar parser.
use etar.Prelude.{
  ℕ, ◌+◌, ◌-◌, ◌≤◌, ◌<◌, ◌≡◌, refl, ap, sym, ◌∙◌, false, List, [], ◌++◌, Bytes, length, drop,
  Option, arith, All, length-append, length-drop, take, take-append,
}
use etar.Limits.{SecurityLimits}
use etar.Io.{ReadBuf, Shared, Poller, remaining, u64_mod, drain}
use etar.Io.Contract.{IsLawful, KeepsDecoded, filled-difference}
use etar.Io.Log.{Recorded, poll_recorded}
use etar.Open.Cap.{Cap, new_cap, breach, settle, poll_cap}
use etar.Open.Cap.Total.{poll_cap-IsLawful}
use etar.Guard.{new_guard}
use etar.Guard.Framed.{held}
use etar.Guard.Erase.{erase, drain_bytes-erase}
use etar.Guard.Keeps.{drain-poll_guard-Holds}
use etar.Guard.Reading.{poll_guard}
use etar.Guard.Transparent.{drain-new_guard}
use etar.Reader.Open.{layers}

-- What a poll of a cap hands out, and what it counts.
poll_cap-grows :
    {D : Type 0} (poll : Poller D) (c : Cap D) (sh : Shared) (b : ReadBuf) (n : ℕ)
    → IsLawful poll
    → KeepsDecoded poll
    → c.max + remaining b < u64_mod
    → n ≤ c.max
    → (c.failed ≡ false → sh.decoded ≡ n)
    → (let t = poll_cap poll c sh b in
        (n + (length t.buf.filled - length b.filled) ≤ c.max)
        × (t.state.failed ≡ false → t.shared.decoded ≡ n + (length t.buf.filled - length b.filled))
        × (t.state.max ≡ c.max))
unfolding poll_cap breach settle
poll_cap-grows poll c sh b n lawful keeps room small counted =
    let (bs, h) = lawful c.inner sh b in
    let k = keeps c.inner sh b in
    let f = h.fits in
    let d = filled-difference h in
    let cut : length (take (length b.filled) (poll c.inner sh b).buf.filled) ≡ length b.filled =
      ap length (ap (λ x. take (length b.filled) x) h.filled ∙ take-append b.filled bs) in
    (
      ground (arith, k, f, d, cut, counted),
      ground (arith, k, f, d, cut, counted),
      ground (arith, k, f, d),
    )

module _ {D : Type 0} (poll : Poller D) (max : ℕ) where
  -- What a cap has handed out so far is within its limit, and is what it has counted until it fails.
  abbrev Charged : Recorded (Cap D) → Shared → Type 0
  Charged c sh =
      (c.state.max ≡ max)
      × (length c.log ≤ max)
      × (c.state.failed ≡ false → sh.decoded ≡ length c.log)

  poll_cap-Charged :
      IsLawful poll
      → KeepsDecoded poll
      → (c : Recorded (Cap D)) (sh : Shared) (b : ReadBuf) → max + remaining b < u64_mod
      → Charged c sh
      → (let t = poll_recorded (poll_cap poll) c sh b in Charged t.state t.shared)
  unfolding poll_recorded
  poll_cap-Charged lawful keeps c sh b room (same, small, counted) =
      let t = poll_cap poll c.state sh b in
      let (fits, counts, same') =
        poll_cap-grows poll c.state sh b (length c.log) lawful keeps (omega (arith, same))
          (omega (arith, same)) counted in
      let handed : length (c.log ++ drop (length b.filled) t.buf.filled)
          ≡ length c.log + (length t.buf.filled - length b.filled) =
        omega (
          arith,
          length-append c.log (drop (length b.filled) t.buf.filled),
          length-drop (length b.filled) t.buf.filled,
        ) in
      (same' ∙ same, omega (arith, handed, fits, same), λ alive. counts alive ∙ sym handed)

-- The layers of a new reader hand at most `max_total_bytes` decoded bytes to the tar parser, headers
-- and padding included, over any sequence of polls with empty buffers, whatever the decoder yields and
-- whether or not polls fail. The decoder keeps the contract of `AsyncRead` and leaves the decoded
-- count alone, and neither a buffer nor a header is so large that the 64-bit count could wrap.
pub drain-layers-le-max :
    {D : Type 0} (poll : Poller D) (header_size : Bytes → Option ℕ)
    → IsLawful poll
    → KeepsDecoded poll
    → (limits : SecurityLimits) (decoder : D) (sh : Shared) (ns : List ℕ) (room : ℕ) → 512 ≤ room
    → All (λ n. n ≤ room) ns
    → limits.max_total_bytes + room < u64_mod
    → sh.decoded ≡ 0
    → length (drain (poll_guard (poll_cap poll) header_size) (layers limits decoder) sh ns).bytes
      ≤ limits.max_total_bytes
unfolding layers new_guard erase
drain-layers-le-max {D} poll header_size lawful keeps limits decoder sh ns room block small wraps
      fresh =
    let max = limits.max_total_bytes in
    let cap : Recorded (Cap D) = record {
      state = new_cap decoder max limits.max_compression_ratio;
      log = [];
    } in
    let start = new_guard cap limits.max_metadata_bytes in
    let d = drain (poll_guard (poll_recorded (poll_cap poll)) header_size) start sh ns in
    let (sync, _) =
      drain-new_guard (poll_cap poll) (poll_cap-IsLawful poll lawful) header_size cap.state
        limits.max_metadata_bytes sh ns in
    let (_, charged, _) =
      drain-poll_guard-Holds (Charged poll max) (poll_recorded (poll_cap poll)) room
        (λ s sh' b fits p. poll_cap-Charged poll max lawful keeps s sh' b (omega arith) p) block
        header_size ns start sh small (refl, omega arith, λ _. fresh) in
    rw (← drain_bytes-erase (poll_cap poll) header_size ns start sh)
      (omega (arith, ap length sync, length-append d.bytes (held d.last), charged))

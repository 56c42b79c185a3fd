-- ===== src/Pack/Counts.antt =====
-- The bytes that come through `Exact` of src/pack.rs, over sequences of polls.
use etar.Prelude.{
  ℕ, ◌+◌, ◌<◌, ◌≡◌, refl, ap, ◌∙◌, false, List, [], ◌∷◌, length, ◌==◌, ok, err, arith,
  length-append, Bool-cases, inl, inr,
}
use etar.Io.{Poll, pending, ready, Shared, Turn, Poller, drain, empty_buf}
use etar.Io.Contract.{IsLawful, is_ready_ok}
use etar.Pack.Body.{Exact, new_exact, exact_read, poll_exact}

module _ {R : Type 0} where
  -- One poll with an empty buffer that leaves the flag unset.
  record Takes (x : Exact R) (t : Turn (Exact R)) : Type 0 where
    unset : x.mismatch ≡ false
    taken : length t.buf.filled + t.state.remaining ≡ x.remaining

  exact_read-Takes :
      (x : Exact R) (t : Turn R) (p : Poll)
      → (is_ready_ok p ≡ false → t.buf.filled ≡ [])
      → (exact_read x 0 t p).state.mismatch ≡ false
      → Takes x (exact_read x 0 t p)
  unfolding exact_read
  exact_read-Takes x t pending quiet h = record {
    unset = h;
    taken = omega (arith, ap length (quiet refl));
  }
  exact_read-Takes x t (ready (err e)) quiet h = record {
    unset = h;
    taken = omega (arith, ap length (quiet refl));
  }
  exact_read-Takes x t (ready (ok u)) quiet h = ground arith

module _ {R : Type 0} (poll : Poller R) (lawful : IsLawful poll) where
  poll_exact-Takes :
      (x : Exact R) (sh : Shared) (n : ℕ)
      → (poll_exact poll x sh (empty_buf n)).state.mismatch ≡ false
      → Takes x (poll_exact poll x sh (empty_buf n))
  unfolding poll_exact
  poll_exact-Takes x sh n h =
      let (bs, hands) = lawful x.inner sh (empty_buf n) in
      let t = poll x.inner sh (empty_buf n) in
      elim (Bool-cases (x.remaining == 0)) [
        | inl e ↦ rw e (record { unset = rw e at h; taken = omega arith })
        | inr e ↦ rw e (exact_read-Takes x t t.poll (λ q. hands.filled ∙ hands.quiet q) (rw e at h))
      ]

  drain-poll_exact :
      (x : Exact R) (sh : Shared) (ns : List ℕ)
      → (drain (poll_exact poll) x sh ns).last.mismatch ≡ false
      → (x.mismatch ≡ false)
        × (length (drain (poll_exact poll) x sh ns).bytes
              + (drain (poll_exact poll) x sh ns).last.remaining
            ≡ x.remaining)
  unfolding drain
  drain-poll_exact x sh [] h = (h, omega arith)
  drain-poll_exact x sh (n ∷ ns) h =
      let t = poll_exact poll x sh (empty_buf n) in
      let rest = drain (poll_exact poll) t.state t.shared ns in
      let (unset, counted) = drain-poll_exact t.state t.shared ns h in
      let takes = poll_exact-Takes x sh n unset in
      (takes.unset, omega (arith, takes.taken, counted, length-append t.buf.filled rest.bytes))

  -- A poll that ends the file: it is ready, hands out nothing into a buffer with room, and reports no
  -- mismatch.
  pub record EndsFile (n : ℕ) (t : Turn (Exact R)) : Type 0 where
    pub room : 0 < n
    pub is_ready : t.poll ≡ ready (ok tt)
    pub no_bytes : t.buf.filled ≡ []
    pub unset : t.state.mismatch ≡ false

  exact_read_end :
      (x : Exact R) (n : ℕ) (t : Turn R) (p : Poll)
      → EndsFile n (exact_read x 0 t p)
      → x.remaining ≡ 0
  unfolding exact_read
  exact_read_end x n t pending h = absurd (ground (arith, h.is_ready))
  exact_read_end x n t (ready (err e)) h = absurd (ground (arith, h.is_ready))
  exact_read_end x n t (ready (ok u)) h = ground (arith, h.is_ready, h.unset, ap length h.no_bytes)

  poll_exact-EndsFile :
      (x : Exact R) (sh : Shared) (n : ℕ)
      → EndsFile n (poll_exact poll x sh (empty_buf n))
      → x.remaining ≡ 0
  unfolding poll_exact
  poll_exact-EndsFile x sh n h =
      let t = poll x.inner sh (empty_buf n) in
      elim (Bool-cases (x.remaining == 0)) [
        | inl e ↦ ground arith
        | inr e ↦ exact_read_end x n t t.poll (rw e at h)
      ]

  -- A reader that polls a new `Exact` with empty buffers, and then sees the end of the file with no
  -- mismatch reported, has got exactly the declared number of bytes. The body keeps the contract of
  -- `AsyncRead`.
  pub drain-new_exact :
      (inner : R) (size : ℕ) (sh : Shared) (ns : List ℕ) (n : ℕ)
      → (let d = drain (poll_exact poll) (new_exact inner size) sh ns in
          EndsFile n (poll_exact poll d.last d.after (empty_buf n)))
      → length (drain (poll_exact poll) (new_exact inner size) sh ns).bytes ≡ size
  drain-new_exact inner size sh ns n ends =
      let d = drain (poll_exact poll) (new_exact inner size) sh ns in
      let unset = (poll_exact-Takes d.last d.after n ends.unset).unset in
      omega (
        arith,
        (drain-poll_exact (new_exact inner size) sh ns unset).1,
        poll_exact-EndsFile d.last d.after n ends,
      )

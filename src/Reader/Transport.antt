-- ===== src/Reader/Transport.antt =====
-- The way of a transport failure from the caller's source through the layers of src/open.rs and
-- src/guard.rs to `next_entry` of src/reader.rs.
use etar.Prelude.{
  ℕ, suc, ◌-◌, ◌≤◌, ◌<◌, ◌≡◌, refl, ap, true, false, Option, none, some, Bytes, length, ltb, ◌==◌,
  Bool, if◌then◌else◌, subst, inl, inr, ◌⊎◌, Result, ok, err, arith,
}
use etar.Errors.{IoError, io, custom, kind}
use etar.Io.{Poll, pending, ready, ReadBuf, Shared, Turn, Poller, remaining, empty_buf}
use etar.Open.Meter.{Meter, mark_io, poll_meter}
use etar.Open.Cap.{Cap, settle, poll_cap}
use etar.Open.Cap.Outcome.{poll_cap_alive}
use etar.Open.OpenEntry.{TarEntry, boxed_error, read_error}
use etar.Guard.{HeaderGuard}
use etar.Guard.Reading.{fill_read, fill, data_read, read_data, header_read, poll_guard}
use etar.Reader.{TarParser, Reader, on_next, next_from, next_entry}

-- A reader that fails with `x`, however it is polled, and hands out nothing.
pub record IsBroken {S : Type 0} (poll : Poller S) (s : S) (x : IoError) : Type 0 where
  pub fails : (sh : Shared) (b : ReadBuf) → (poll s sh b).poll ≡ ready (err x)
  pub quiet : (sh : Shared) (b : ReadBuf) → length (poll s sh b).buf.filled ≤ length b.filled

-- The error that the meter makes of the source's.
abbrev pub marked : IoError → IoError
marked e = custom (kind e) (io e)

poll_meter-IsBroken :
    {S : Type 0} (poll : Poller S) (m : Meter S) (e : IoError)
    → IsBroken poll m.inner e
    → IsBroken (poll_meter poll) m (marked e)
unfolding poll_meter mark_io
poll_meter-IsBroken poll m e broken = record {
  fails = λ sh b. rw (broken.fails sh b) refl;
  quiet = broken.quiet;
}

poll_cap-IsBroken :
    {D : Type 0} (poll : Poller D) (c : Cap D) (x : IoError)
    → c.failed ≡ false
    → IsBroken poll c.inner x
    → IsBroken (poll_cap poll) c x
unfolding settle
poll_cap-IsBroken poll c x alive broken = record {
  fails = λ sh b.
      let none_ : ltb 0 (length (poll c.inner sh b).buf.filled - length b.filled) ≡ false =
        ground (arith, broken.quiet sh b) in
      rw (poll_cap_alive poll c sh b alive, none_) (broken.fails sh b);
  quiet = λ sh b.
      let none_ : ltb 0 (length (poll c.inner sh b).buf.filled - length b.filled) ≡ false =
        ground (arith, broken.quiet sh b) in
      rw (poll_cap_alive poll c sh b alive, none_) (broken.quiet sh b);
}

-- A guard that cannot go on without its reader: in the trailer, in a member's body, or in front of a
-- header that it has not got whole.
abbrev pub Needs : {R : Type 0} → HeaderGuard R → Type 0
Needs g = (g.trailer ≡ true) ⊎ (0 < g.data_remaining) ⊎ (g.filled < 512)

-- A fact of a choice of four, the first of which is out.
pick :
    {T : Type 0} (P : T → Type 0) (a b c : Bool) (w x y z : T)
    → a ≡ false
    → (b ≡ true → P x)
    → (b ≡ false → c ≡ true → P y)
    → (b ≡ false → c ≡ false → P z)
    → P (if a then w else if b then x else if c then y else z)
pick P true b c w x y z h px py pz = absurd cc
pick P false true c w x y z h px py pz = px refl
pick P false false true w x y z h px py pz = py refl refl
pick P false false false w x y z h px py pz = pz refl refl

module _ {R : Type 0} (poll : Poller R) (x : IoError) where
  data_read-fails :
      (g : HeaderGuard R) (out : ReadBuf) (t : Turn R) (p : Poll)
      → p ≡ ready (err x)
      → (data_read g out t p).poll ≡ ready (err x)
  unfolding data_read
  data_read-fails g out t pending e = cc
  data_read-fails g out t (ready (ok u)) e = cc
  data_read-fails g out t (ready (err y)) e = e

  fill-fails :
      (fuel : ℕ) (g : HeaderGuard R) (sh : Shared)
      → IsBroken poll g.inner x
      → g.filled < 512
      → (fill poll (suc fuel) g sh).returned ≡ some (ready (err x))
  unfolding fill fill_read
  fill-fails fuel g sh broken short =
      let below : ltb g.filled 512 ≡ true = ground (arith, short) in
      rw (below, broken.fails sh (empty_buf (512 - g.filled))) refl

  header_read-fails :
      (header_size : Bytes → Option ℕ) (g : HeaderGuard R) (sh : Shared) (out : ReadBuf)
      → IsBroken poll g.inner x
      → g.filled < 512
      → (header_read header_size (fill poll 512 g sh) out).poll ≡ ready (err x)
  unfolding header_read
  header_read-fails header_size g sh out broken short = rw (fill-fails 511 g sh broken short) refl

  poll_guard-fails :
      (header_size : Bytes → Option ℕ) (g : HeaderGuard R) (sh : Shared) (out : ReadBuf)
      → IsBroken poll g.inner x
      → 0 < remaining out
      → Needs g
      → (poll_guard poll header_size g sh out).poll ≡ ready (err x)
  unfolding poll_guard read_data
  poll_guard-fails header_size g sh out broken room needs =
      let some_room : (remaining out == 0) ≡ false = ground (arith, room) in
      pick (λ (t : Turn (HeaderGuard R)). t.poll ≡ ready (err x)) (remaining out == 0) g.trailer
        (ltb 0 g.data_remaining) _ _ _ _ some_room (λ t. broken.fails sh out)
        (λ t d. data_read-fails g out _ _ (broken.fails sh _))
        (λ t d. header_read-fails header_size g sh out broken (short needs t (ground (arith, d))))
    where
      short : Needs g → g.trailer ≡ false → ¬ (0 < g.data_remaining) → g.filled < 512
      short (inl e) t d = absurd cc
      short (inr (inl e)) t d = absurd (d e)
      short (inr (inr e)) t d = e

module _ {A B Z : Type 0} (parser : TarParser A B Z) (patience rounds : ℕ) where
  read_error-io :
      (e : IoError) (sh : Shared) (max : ℕ)
      → sh.decoded ≤ max
      → read_error (marked e) sh max ≡ io (marked e)
  unfolding read_error boxed_error
  read_error-io e sh max small = ground arith

  on_next-io :
      (r : Reader A) (sh : Shared) (o : Option (Option (Result (TarEntry B) IoError))) (e : IoError)
      → o ≡ some (some (err (marked e)))
      → sh.decoded ≤ r.limits.max_total_bytes
      → (on_next parser patience rounds r sh o).result ≡ some (err (io (marked e)))
  unfolding on_next
  on_next-io r sh none e same small = cc
  on_next-io r sh (some none) e same small = cc
  on_next-io r sh (some (some (ok entry))) e same small = cc
  on_next-io r sh (some (some (err y))) e same small =
      let one : y ≡ marked e = cc in
      rw one (ap (λ z. some (err z)) (read_error-io e sh r.limits.max_total_bytes small))

  next_from-io :
      (r : Reader A) (sh : Shared) (o : Option A) (a : A) (e : IoError)
      → o ≡ some a
      → (parser.next a sh).result ≡ some (some (err (marked e)))
      → (parser.next a sh).shared.decoded ≤ r.limits.max_total_bytes
      → (next_from parser patience rounds r sh o).result ≡ some (err (io (marked e)))
  unfolding next_from
  next_from-io r sh none a e same said small = cc
  next_from-io r sh (some a') a e same said small =
      let one : a ≡ a' = cc in
      on_next-io (record r { archive = some (parser.next a' sh).archive })
        (parser.next a' sh).shared _ e
        (subst (λ z. (parser.next z sh).result ≡ some (some (err (marked e)))) one said)
        (subst (λ z. (parser.next z sh).shared.decoded ≤ r.limits.max_total_bytes) one small)

  next_entry-io :
      (r : Reader A) (sh : Shared) (a : A) (e : IoError)
      → sh.body_failed ≡ false
      → r.done ≡ false
      → r.entries ≡ true
      → r.archive ≡ some a
      → (parser.next a sh).result ≡ some (some (err (marked e)))
      → (parser.next a sh).shared.decoded ≤ r.limits.max_total_bytes
      → (next_entry parser patience rounds r sh).result ≡ some (err (io (marked e)))
  unfolding next_entry
  next_entry-io r sh a e alive open_ entries holds said small =
      simp (alive, open_, entries) (next_from-io r sh r.archive a e holds said small)

-- A source that has broken down with the error `e`, so that every poll of it fails and hands out
-- nothing, reaches the caller of `next_entry` as `Error::Io` of an error of the source's own kind
-- around the source's own. It goes through the meter, a decoder that passes its source's error on, the
-- cap and the guard, if the cap has not cut the stream off, the guard needs bytes and its caller has
-- room for some. The reader has neither failed nor come to its end, it holds the archive of a tar
-- parser that polls the guard and passes on an error of it, and the decoded total is within its cap.
pub next_entry-transport :
    {S D A B Z : Type 0} (poll : Poller S) (decode : Poller D) (header_size : Bytes → Option ℕ)
    (parser : TarParser A B Z) (patience rounds : ℕ) (e : IoError) (m : Meter S)
    (g : HeaderGuard (Cap D)) (sh : Shared) (out : ReadBuf) (r : Reader A) (a : A)
    → IsBroken poll m.inner e
    → (IsBroken (poll_meter poll) m (marked e) → IsBroken decode g.inner.inner (marked e))
    → ((x : IoError)
        → (poll_guard (poll_cap decode) header_size g sh out).poll ≡ ready (err x)
        → (parser.next a sh).result ≡ some (some (err x)))
    → g.inner.failed ≡ false
    → Needs g
    → 0 < remaining out
    → sh.body_failed ≡ false
    → r.done ≡ false
    → r.entries ≡ true
    → r.archive ≡ some a
    → (parser.next a sh).shared.decoded ≤ r.limits.max_total_bytes
    → (next_entry parser patience rounds r sh).result ≡ some (err (io (custom (kind e) (io e))))
next_entry-transport poll decode header_size parser patience rounds e m g sh out r a broken passes
      tells alive needs room live open_ entries holds small =
    let decoder = passes (poll_meter-IsBroken poll m e broken) in
    let capped = poll_cap-IsBroken decode g.inner (marked e) alive decoder in
    let said =
      tells (marked e)
        (poll_guard-fails (poll_cap decode) (marked e) header_size g sh out capped room needs) in
    next_entry-io parser patience rounds r sh a e live open_ entries holds said small

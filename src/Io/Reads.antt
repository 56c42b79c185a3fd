-- ===== src/Io/Reads.antt =====
-- An awaited read of a reader that knows its history.
use etar.Prelude.{
  ℕ, zero, suc, ◌≤◌, ◌≡◌, refl, sym, ap, ◌∙◌, false, some, [], ◌++◌, append-nil, Bytes, length,
  Result, ok, err, arith,
}
use etar.Errors.{IoError}
use etar.Io.{Poll, pending, ready, Shared, Turn, Poller, empty_buf}
use etar.Io.Await.{Awaited, await_turn, read}
use etar.Io.Contract.{is_ready_ok}
use etar.Io.Log.{IsLogged}

module _ {S : Type 0} {poll : Poller S} {log : S → Bytes} (logged : IsLogged poll log) where
  -- What a read leaves: the bytes that it returned are those that were read, and a read that failed
  -- or was dropped read nothing.
  pub record Reads (s : S) (size : ℕ) (a : Awaited S (Result Bytes IoError)) : Type 0 where
    pub bytes : Bytes
    pub logged_bytes : log a.state ≡ log s ++ bytes
    pub fits : length bytes ≤ size
    pub returned : (bs : Bytes) → a.result ≡ some (ok bs) → bs ≡ bytes

  -- Nothing was read before the future's last poll.
  unread : (s s' : S) (bs : Bytes) → log s' ≡ log s ++ bs → bs ≡ [] → log s' ≡ log s
  unread s s' bs e none_ = e ∙ (ap (λ t. log s ++ t) none_ ∙ append-nil (log s))

  await-Reads :
      (again : S → Shared → Awaited S (Result Bytes IoError)) (s : S) (size : ℕ) (t : Turn S)
      (p : Poll)
      → log t.state ≡ log s ++ t.buf.filled
      → length t.buf.filled ≤ size
      → (is_ready_ok p ≡ false → t.buf.filled ≡ [])
      → (log t.state ≡ log s → Reads s size (again t.state t.shared))
      → Reads s size (await_turn poll again t p)
  unfolding await_turn
  await-Reads again s size t pending e fits quiet next = next (unread s t.state _ e (quiet refl))
  await-Reads again s size t (ready (err x)) e fits quiet next = record {
    bytes = t.buf.filled;
    logged_bytes = e;
    fits = fits;
    returned = λ bs h. cc;
  }
  await-Reads again s size t (ready (ok u)) e fits quiet next = record {
    bytes = t.buf.filled;
    logged_bytes = e;
    fits = fits;
    returned = λ bs h. cc;
  }

  pub read-Reads :
      (patience : ℕ) (s : S) (sh : Shared) (size : ℕ) → Reads s size (read poll patience s sh size)
  unfolding read
  read-Reads zero s sh size = record {
    bytes = [];
    logged_bytes = sym (append-nil (log s));
    fits = omega arith;
    returned = λ bs h. cc;
  }
  read-Reads (suc patience) s sh size =
      let l = logged s sh (empty_buf size) in
      let t = poll s sh (empty_buf size) in
      await-Reads (λ s' sh'. read poll patience s' sh' size) s size t t.poll
        (l.logged ∙ ap (λ x. log s ++ x) (sym l.hands.filled))
        (rw (l.hands.filled) (omega (arith, l.hands.fits))) (λ q. l.hands.filled ∙ l.hands.quiet q)
        (λ same. reseat same (read-Reads patience t.state t.shared size))
    where
      reseat :
          {t : S} {a : Awaited S (Result Bytes IoError)}
          → log t ≡ log s
          → Reads t size a
          → Reads s size a
      reseat same r = record {
        bytes = r.bytes;
        logged_bytes = r.logged_bytes ∙ ap (λ x. x ++ r.bytes) same;
        fits = r.fits;
        returned = r.returned;
      }

-- ===== src/Compress/Keeps.antt =====
-- What every poll of a source keeps, an awaited read keeps, and so does the peek of src/compress.rs.
use etar.Prelude.{
  ℕ, zero, suc, ◌-◌, Option, none, some, Bytes, length, ltb, ◌==◌, ◌++◌, Result, ok, err,
  Bool-cases, inl, inr,
}
use etar.Errors.{IoError}
use etar.Settings.{peek_len}
use etar.Io.{Poll, pending, ready, Shared, Turn, Poller, empty_buf}
use etar.Io.Await.{Awaited, await_turn, read}
use etar.Compress.{peek_read, peek}

module _ {S : Type 0} (poll : Poller S) (P : S → Shared → Type 0)
    (keeps : (s : S) (sh : Shared) (n : ℕ)
      → P s sh
      → P (poll s sh (empty_buf n)).state (poll s sh (empty_buf n)).shared) where
  await_turn-Holds :
      (again : S → Shared → Awaited S (Result Bytes IoError)) (t : Turn S) (q : Poll)
      → ((s : S) (sh : Shared) → P s sh → P (again s sh).state (again s sh).shared)
      → P t.state t.shared
      → P (await_turn poll again t q).state (await_turn poll again t q).shared
  unfolding await_turn
  await_turn-Holds again t pending next p = next t.state t.shared p
  await_turn-Holds again t (ready (ok u)) next p = p
  await_turn-Holds again t (ready (err e)) next p = p

  read-Holds :
      (patience : ℕ) (s : S) (sh : Shared) (size : ℕ)
      → P s sh
      → P (read poll patience s sh size).state (read poll patience s sh size).shared
  unfolding read
  read-Holds zero s sh size p = p
  read-Holds (suc patience) s sh size p =
      let t = poll s sh (empty_buf size) in
      await_turn-Holds (λ s' sh'. read poll patience s' sh' size) t t.poll
        (λ s' sh' p'. read-Holds patience s' sh' size p') (keeps s sh size p)

  peek_read-Holds :
      (patience : ℕ) (more : Bytes → S → Shared → Awaited S (Result Bytes IoError)) (magic : Bytes)
      (a : Awaited S (Result Bytes IoError)) (o : Option (Result Bytes IoError))
      → ((m : Bytes) → P (more m a.state a.shared).state (more m a.state a.shared).shared)
      → P a.state a.shared
      → P
          (peek_read poll patience more magic a o).state
          (peek_read poll patience more magic a o).shared
  unfolding peek_read
  peek_read-Holds patience more magic a none next p = p
  peek_read-Holds patience more magic a (some (err e)) next p = p
  peek_read-Holds patience more magic a (some (ok bs)) next p = elim (Bool-cases (length bs == 0)) [
    | inl e ↦ rw e p
    | inr e ↦ rw e (next (magic ++ bs))
  ]

  pub peek-Holds :
      (patience fuel : ℕ) (magic : Bytes) (s : S) (sh : Shared)
      → P s sh
      → P (peek poll patience fuel magic s sh).state (peek poll patience fuel magic s sh).shared
  unfolding peek
  peek-Holds patience zero magic s sh p = p
  peek-Holds patience (suc fuel) magic s sh p =
      let a = read poll patience s sh (peek_len - length magic) in
      let p' = read-Holds patience s sh (peek_len - length magic) p in
      elim (Bool-cases (ltb (length magic) peek_len)) [
        | inl e ↦ rw e (
            peek_read-Holds patience (peek poll patience fuel) magic a a.result
              (λ m. peek-Holds patience fuel m a.state a.shared p') p')
        | inr e ↦ rw e p
      ]

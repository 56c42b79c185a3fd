-- ===== src/Pack/Append.antt =====
-- `append` of src/pack.rs on a file, against the length of its body.
use etar.Prelude.{
  ℕ, ◌<◌, ◌≡◌, refl, ap, sym, ◌∙◌, false, Option, none, some, List, [], ◌∷◌, Bytes, length, Result,
  ok, err, arith, Bool-cases, inl, inr,
}
use etar.Errors.{io, IoError}
use etar.Entry.{file}
use etar.Io.{ready, Shared, Poller, drain, empty_buf}
use etar.Io.Contract.{IsLawful}
use etar.Io.Await.{read}
use etar.Pack.{
  Packed, packed, PackEntry, probed, file_appended, append_file, append_kind, append, base_header,
}
use etar.Pack.Builder.{regular, Header, Appended, TarBuilder}
use etar.Pack.Body.{Exact, new_exact, poll_exact}
use etar.Pack.Counts.{drain-new_exact}

-- What tokio_tar documents of `append_data`: if it succeeds, it has read its reader to the end of the
-- file, by some polls with buffers of its own and a last one, with room, that was ready with nothing.
pub record ReadToEnd {S : Type 0} (poll : Poller S) (s : S) (sh : Shared) (last : S)
    (after : Shared) : Type 0 where
  pub sizes : List ℕ
  pub size : ℕ
  pub room : 0 < size
  pub is_ready :
      (let d = drain poll s sh sizes in (poll d.last d.after (empty_buf size)).poll ≡ ready (ok tt))
  pub no_bytes :
      (let d = drain poll s sh sizes in (poll d.last d.after (empty_buf size)).buf.filled ≡ [])
  pub at_last :
      (let d = drain poll s sh sizes in (poll d.last d.after (empty_buf size)).state ≡ last)
  pub at_after :
      (let d = drain poll s sh sizes in (poll d.last d.after (empty_buf size)).shared ≡ after)

abbrev pub ReadsToEnd : {W : Type 0} → TarBuilder W → Type 1
ReadsToEnd {W} tar =
    (S : Type 0) (poll : Poller S) (w : W) (header : Header) (path : Bytes) (s : S) (sh : Shared)
    → (let a = tar.append_data S poll w header path s sh in
        a.result ≡ some (ok tt) → ReadToEnd poll s sh a.body a.shared)

probed-ok : (o : Option (Result Bytes IoError)) → probed o ≡ some (ok tt) → o ≡ some (ok [])
unfolding probed
probed-ok none h = cc
probed-ok (some (err e)) h = cc
probed-ok (some (ok [])) h = refl
probed-ok (some (ok (b ∷ bs))) h = ground arith

-- The body of an append, read to its end: its chunks and the probe behind them.
pub record IsExact {B : Type 0} (poll : Poller B) (patience : ℕ) (body : B) (size : ℕ) (sh : Shared)
    : Type 0 where
  pub last : Exact B
  pub after : Shared
  pub ended : ReadToEnd (poll_exact poll) (new_exact body size) sh last after
  pub whole : length (drain (poll_exact poll) (new_exact body size) sh ended.sizes).bytes ≡ size
  pub unset : last.mismatch ≡ false
  pub no_surplus : (read poll patience last.inner after 1).result ≡ some (ok [])

module _ {W B : Type 0} (tar : TarBuilder W) (poll : Poller B) (patience : ℕ) where
  result-ok :
      (a : Appended W (Exact B)) (r : Result (Unit {0}) IoError)
      → a.body.mismatch ≡ false
      → (elim r as (λ _. Packed W) [
        | err e ↦ packed a.builder a.shared (some (err (io e)))
        | ok u ↦
            let extra = read poll patience a.body.inner a.shared 1 in
            packed a.builder extra.shared (probed extra.result)
      ]).result
        ≡ some (ok tt)
      → (some r ≡ some (ok tt))
        × (a.body.mismatch ≡ false)
        × ((read poll patience a.body.inner a.shared 1).result ≡ some (ok []))
  result-ok a (err e) m h = cc
  result-ok a (ok u) m h =
      (refl, m, probed-ok (read poll patience a.body.inner a.shared 1).result h)

  file_appended-ok :
      (a : Appended W (Exact B)) (o : Option (Result (Unit {0}) IoError))
      → (file_appended tar poll patience a o).result ≡ some (ok tt)
      → (o ≡ some (ok tt))
        × (a.body.mismatch ≡ false)
        × ((read poll patience a.body.inner a.shared 1).result ≡ some (ok []))
  unfolding file_appended
  file_appended-ok a none h = cc
  file_appended-ok a (some r) h = elim (Bool-cases a.body.mismatch) [
    | inl m ↦ let h' = rw m at h in cc
    | inr m ↦ result-ok a r m (rw m at h)
  ]

  append_file-IsExact :
      ReadsToEnd tar
      → IsLawful poll
      → (w : W) (header : Header) (path : Bytes) (size : ℕ) (o : Option B) (sh : Shared)
      → (append_file tar poll patience w header path size o sh).result ≡ some (ok tt)
      → (body : B) × (o ≡ some body) × IsExact poll patience body size sh
  unfolding append_file
  append_file-IsExact to_end lawful w header path size none sh h = cc
  append_file-IsExact to_end lawful w header path size (some body) sh h =
      let header' = record header { entry_type = regular; size = size } in
      let a = tar.append_data (Exact B) (poll_exact poll) w header' path (new_exact body size) sh in
      let (done, unset, probe) = file_appended-ok a a.result h in
      let e = to_end (Exact B) (poll_exact poll) w header' path (new_exact body size) sh done in
      (
        body,
        refl,
        record {
          last = a.body;
          after = a.shared;
          ended = e;
          whole = drain-new_exact poll lawful body size sh e.sizes e.size (record {
            room = e.room;
            is_ready = e.is_ready;
            no_bytes = e.no_bytes;
            unset = ap (λ x. x.mismatch) e.at_last ∙ unset;
          });
          unset = unset;
          no_surplus = probe;
        },
      )

  append_a_file :
      (w : W) (e : PackEntry B) (sh : Shared)
      → e.meta.kind ≡ file
      → append tar poll patience w e sh
        ≡ append_file tar poll patience w (base_header e.meta) e.path.path e.size e.body sh
  unfolding append append_kind
  append_a_file w e sh is_a_file = simp is_a_file

  -- A file that is appended with success had a body, and the body was exactly of the declared length:
  -- the chunks that the builder read are `size` bytes, and the probe behind them read nothing. The
  -- builder reads its reader to the end when it succeeds, and the body keeps the contract of
  -- `AsyncRead`.
  pub append-IsExact :
      ReadsToEnd tar
      → IsLawful poll
      → (w : W) (e : PackEntry B) (sh : Shared) → e.meta.kind ≡ file
      → (append tar poll patience w e sh).result ≡ some (ok tt)
      → (body : B) × (e.body ≡ some body) × IsExact poll patience body e.size sh
  append-IsExact to_end lawful w e sh is_a_file h =
      append_file-IsExact to_end lawful w (base_header e.meta) e.path.path e.size e.body sh
        (ap (λ p. p.result) (sym (append_a_file w e sh is_a_file)) ∙ h)

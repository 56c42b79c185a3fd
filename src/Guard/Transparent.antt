-- ===== src/Guard/Transparent.antt =====
-- The bytes that go through `HeaderGuard` of src/guard.rs, over sequences of polls.
use etar.Prelude.{
  ℕ, ◌≤◌, ◌≡◌, refl, sym, ap, ◌∙◌, Option, List, [], ◌∷◌, ◌++◌, append-nil, append_assoc, Bytes,
  length, take, min, ltb, ◌==◌, arith, Bool-cases, inl, inr, length-take, length-drop,
  length-replicate,
}
use etar.Io.{ReadBuf, Shared, Poller, remaining, empty_buf, drain}
use etar.Io.Contract.{IsLawful}
use etar.Io.Log.{IsLogged, poll_recorded, recorded-IsLogged, log_of}
use etar.Guard.{HeaderGuard, new_guard}
use etar.Guard.Reading.{read_data, fill, poll_guard}
use etar.Guard.Framed.{held, IsShaped}
use etar.Guard.Filling.{poll-Fresh, InSync, fill-IsFilled}
use etar.Guard.Turned.{Turned, idle}
use etar.Guard.Turning.{held-nil, done-eq-log, header_read-Turned, data_read-Turned}

module _ {R : Type 0} (poll : Poller R) (log : R → Bytes) (logged : IsLogged poll log)
    (header_size : Bytes → Option ℕ) where
  poll_guard-Turned :
      (done : Bytes) (g : HeaderGuard R) (sh : Shared) (out : ReadBuf)
      → IsShaped g
      → InSync log done g
      → Turned log done out (poll_guard poll header_size g sh out)
  unfolding poll_guard read_data
  poll_guard-Turned done g sh out shaped sync =
      let l = logged g.inner sh out in
      let n = min g.data_remaining (remaining out) in
      let t = poll g.inner sh (empty_buf n) in
      let fresh = poll-Fresh logged g.inner sh n in
      elim (Bool-cases (remaining out == 0)) [
        | inl e ↦ rw e (idle log done g sh out _ shaped sync)
        | inr e ↦ rw e (elim (Bool-cases g.trailer) [
          | inl tr ↦ simp tr (record {
            bytes = l.bytes;
            filled = l.hands.filled;
            same_size = l.hands.same_size;
            fits = l.hands.fits;
            shaped = record {
              size = shaped.size;
              filled_le = shaped.filled_le;
              emitted_lt = shaped.emitted_lt;
              started = shaped.started;
              in_data = shaped.in_data;
              in_trailer = λ _. shaped.in_trailer tr;
            };
            sync =
                ap (λ h. (done ++ l.bytes) ++ h) (held-nil log done g (shaped.in_trailer tr))
                ∙ (append-nil (done ++ l.bytes)
                    ∙ (ap (λ d. d ++ l.bytes) (done-eq-log log done g sync (shaped.in_trailer tr))
                        ∙ sym l.logged));
          })
          | inr tr ↦ simp tr (elim (Bool-cases (ltb 0 g.data_remaining)) [
            | inl d ↦ rw d (
                data_read-Turned log done g out t t.poll shaped sync (shaped.in_data (ground arith))
                  (omega (arith, fresh.fits)) fresh.logged fresh.quiet)
            | inr d ↦ rw d (
                header_read-Turned log done header_size (fill poll 512 g sh) out (
                  fill-IsFilled poll log logged done 512 g sh
                    (record {
                      header = record { shaped = shaped; no_data = ground arith; no_trailer = tr };
                      sync = sync;
                    })
                    (omega arith)))
          ])
        ])
      ]

  drain-poll_guard :
      (ns : List ℕ) (done : Bytes) (g : HeaderGuard R) (sh : Shared)
      → IsShaped g
      → InSync log done g
      → (let d = drain (poll_guard poll header_size) g sh ns in
          IsShaped d.last × InSync log (done ++ d.bytes) d.last)
  unfolding drain
  drain-poll_guard [] done g sh shaped sync =
      (shaped, ap (λ d. d ++ held g) (append-nil done) ∙ sync)
  drain-poll_guard (n ∷ ns) done g sh shaped sync =
      let turned = poll_guard-Turned done g sh (empty_buf n) shaped sync in
      let t = poll_guard poll header_size g sh (empty_buf n) in
      let rest = drain (poll_guard poll header_size) t.state t.shared ns in
      let (s, y) =
        drain-poll_guard ns (done ++ turned.bytes) t.state t.shared turned.shaped turned.sync in
      (
        s,
        ap (λ b. b ++ held rest.last)
              (ap (λ x. done ++ (x ++ rest.bytes)) turned.filled
                ∙ sym (append_assoc done turned.bytes rest.bytes))
            ∙ y,
      )

new_guard-IsShaped : {R : Type 0} (r : R) (max : ℕ) → IsShaped (new_guard r max)
unfolding new_guard
new_guard-IsShaped r max = record {
  size = length-replicate {A = ℕ} 512 0;
  filled_le = omega arith;
  emitted_lt = omega arith;
  started = λ h. absurd (omega arith);
  in_data = λ _. refl;
  in_trailer = λ _. refl;
}

new_guard-InSync :
    {S : Type 0} (s : S) (max : ℕ)
    → InSync log_of [] (new_guard (record { state = s; log = [] }) max)
unfolding new_guard
new_guard-InSync s max = refl

length-held : {R : Type 0} (g : HeaderGuard R) → IsShaped g → length (held g) ≤ 512
length-held g shaped = omega (
  arith,
  length-drop g.emitted (take g.filled g.header),
  length-take g.filled g.header,
  shaped.filled_le,
)

-- Over any sequence of polls of a new guard, each with an empty buffer, the bytes that the guard has
-- handed out, followed by the header bytes that it holds, are the bytes that it has read from the
-- decoded stream, also where polls wait or fail; and it holds at most 512 bytes. The stream keeps
-- the contract of `AsyncRead`.
pub drain-new_guard :
    {S : Type 0} (poll : Poller S)
    → IsLawful poll
    → (header_size : Bytes → Option ℕ) (s : S) (max_metadata_bytes : ℕ) (sh : Shared) (ns : List ℕ)
    → (let d =
          drain
            (poll_guard (poll_recorded poll) header_size)
            (new_guard (record { state = s; log = [] }) max_metadata_bytes)
            sh
            ns in
        (d.bytes ++ held d.last ≡ d.last.inner.log) × (length (held d.last) ≤ 512))
drain-new_guard poll lawful header_size s max sh ns =
    let start = new_guard (record { state = s; log = [] }) max in
    let d = drain (poll_guard (poll_recorded poll) header_size) start sh ns in
    let (shaped, sync) =
      drain-poll_guard (poll_recorded poll) log_of (recorded-IsLogged poll lawful) header_size ns []
        start sh (new_guard-IsShaped _ max) (new_guard-InSync s max) in
    (sync, length-held d.last shaped)

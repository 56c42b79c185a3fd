-- ===== src/Writer/Poison.antt =====
-- Sequences of appends to the writer of src/writer.rs, and `finish` behind them.
use etar.Prelude.{
  ℕ, ◌≡◌, refl, ap, ◌∙◌, Bool, true, false, not, Option, some, List, map, [], ◌∷◌, if◌then◌else◌,
  Result, err, arith, Bool-cases, inl, inr,
}
use etar.Errors.{Error, aborted}
use etar.Io.{Shared, Poller}
use etar.Pack.{PackEntry}
use etar.Pack.Builder.{TarBuilder}
use etar.Writer.{
  Writer, Inner, tar_builder, zstd_builder, succeeded, conclude, append_inner, append_entry, finish,
  finish_inner, Closers,
}

module _ {T Z B : Type 0} (plain : TarBuilder T) (zstd : TarBuilder Z) (poll : Poller B)
    (patience : ℕ) where
  -- A caller that appends entries one after another, whatever each append returns.
  unfoldable pub append_all :
      Writer T Z
      → List (PackEntry B)
      → Shared
      → Writer T Z × List (Option (Result (Unit {0}) Error))
  append_all w [] sh = (w, [])
  append_all w (e ∷ es) sh =
      let a = append_entry plain zstd poll patience w e sh in
      let (last, results) = append_all a.writer es a.shared in (last, a.result ∷ results)

  abbrev pub all_succeeded : List (Option (Result (Unit {0}) Error)) → Bool
  all_succeeded [] = true
  all_succeeded (r ∷ rs) = if succeeded r then all_succeeded rs else false

  append_inner-failed :
      (i : Inner T Z) (e : PackEntry B) (sh : Shared)
      → (append_inner plain zstd poll patience i e sh).writer.failed
        ≡ not (succeeded (append_inner plain zstd poll patience i e sh).result)
  unfolding append_inner conclude
  append_inner-failed (tar_builder t) e sh = refl
  append_inner-failed (zstd_builder z) e sh = refl

  append_entry-failed :
      (w : Writer T Z) (e : PackEntry B) (sh : Shared)
      → (append_entry plain zstd poll patience w e sh).writer.failed
        ≡ not (succeeded (append_entry plain zstd poll patience w e sh).result)
  unfolding append_entry
  append_entry-failed w e sh = ground (arith, append_inner-failed w.inner e sh)

  aborted_entry :
      (w : Writer T Z) (e : PackEntry B) (sh : Shared)
      → w.failed ≡ true
      → append_entry plain zstd poll patience w e sh
        ≡ record { writer = w; shared = sh; result = some (err aborted) }
  unfolding append_entry
  aborted_entry w e sh h = simp h

  -- A writer that is marked as failed only says so.
  append_all_marked :
      (w : Writer T Z) (es : List (PackEntry B)) (sh : Shared)
      → w.failed ≡ true
      → append_all w es sh ≡ (w, map (λ _. some (err aborted)) es)
  unfolding append_all
  append_all_marked w [] sh h = refl
  append_all_marked w (e ∷ es) sh h = rw (aborted_entry w e sh h, append_all_marked w es sh h)

  -- Once an append has failed or was dropped, whatever writer it was made on, the writer never changes
  -- again: every later append returns `Aborted`, and leaves the writer as that append left it.
  pub append_all-aborted :
      (w : Writer T Z) (e : PackEntry B) (es : List (PackEntry B)) (sh : Shared)
      → (let a = append_entry plain zstd poll patience w e sh in
          succeeded a.result ≡ false
          → append_all a.writer es a.shared ≡ (a.writer, map (λ _. some (err aborted)) es))
  append_all-aborted w e es sh failed =
      let a = append_entry plain zstd poll patience w e sh in
      append_all_marked a.writer es a.shared (append_entry-failed w e sh ∙ ap not failed)

  append_all-failed :
      (w : Writer T Z) (es : List (PackEntry B)) (sh : Shared)
      → w.failed ≡ false
      → (append_all w es sh).0.failed ≡ not (all_succeeded (append_all w es sh).1)
  unfolding append_all
  append_all-failed w [] sh h = h
  append_all-failed w (e ∷ es) sh h =
      let a = append_entry plain zstd poll patience w e sh in
      elim (Bool-cases (succeeded a.result)) [
        | inl s ↦
            rw s (append_all-failed a.writer es a.shared (append_entry-failed w e sh ∙ ap not s))
        | inr s ↦ rw s (
            ap (λ r. r.0.failed)
              (append_all_marked a.writer es a.shared (append_entry-failed w e sh ∙ ap not s))
            ∙ (append_entry-failed w e sh ∙ ap not s))
      ]

  -- After any sequence of appends to a writer that has not failed, `finish` closes the archive if
  -- every append succeeded, and returns `Aborted` if one of them failed or was dropped.
  pub finish-append_all :
      {K Enc : Type 0} (close : Closers K Enc T Z) (w : Writer T Z) (es : List (PackEntry B))
      (sh : Shared)
      → w.failed ≡ false
      → finish close (append_all w es sh).0 ≡ (
          if all_succeeded (append_all w es sh).1
          then finish_inner close (append_all w es sh).0.inner
          else err aborted)
  unfolding finish
  finish-append_all close w es sh h = ground (arith, append_all-failed w es sh h)

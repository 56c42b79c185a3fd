-- ===== src/Writer/Count.antt =====
-- The bytes that `Counted` of src/writer.rs counts over a sequence of writes.
use etar.Prelude.{ℕ, ◌+◌, ◌-◌, ◌<◌, ◌≡◌, refl, ap, ◌∙◌, List, [], ◌∷◌, Bytes, min, arith}
use etar.Io.{u64_mod}
use etar.Writer.{Counted, WritePoll, write_pending, wrote, write_failed, count_write, poll_write}

-- A caller that writes once with each buffer, and what the writes returned.
unfoldable pub writes :
    {S : Type 0} → (S → Bytes → S × WritePoll) → S → List Bytes → S × List WritePoll
writes write s [] = (s, [])
writes write s (b ∷ bs) =
    let (next, p) = write s b in let (last, ps) = writes write next bs in (last, p ∷ ps)

-- The bytes that were written in all.
abbrev pub total : List WritePoll → ℕ
total [] = 0
total (write_pending ∷ ps) = total ps
total (wrote n ∷ ps) = n + total ps
total (write_failed e ∷ ps) = total ps

module _ {K : Type 0} (sink : K → Bytes → K × WritePoll) where
  count_write-inner : (c : Counted K) (k : K) (p : WritePoll) → (count_write c k p).inner ≡ k
  unfolding count_write
  count_write-inner c k write_pending = refl
  count_write-inner c k (wrote n) = refl
  count_write-inner c k (write_failed e) = refl

  count_write-total :
      (c : Counted K) (k : K) (p : WritePoll) (ps : List WritePoll)
      → c.bytes < u64_mod
      → ((count_write c k p).bytes < u64_mod)
        × (min ((count_write c k p).bytes + total ps) (u64_mod - 1)
            ≡ min (c.bytes + total (p ∷ ps)) (u64_mod - 1))
  unfolding count_write
  count_write-total c k write_pending ps small = (small, refl)
  count_write-total c k (wrote n) ps small = (ground (arith, small), ground (arith, small))
  count_write-total c k (write_failed e) ps small = (small, refl)

  -- Over any sequence of writes through a counted sink, the sink is left and the writes return as
  -- without the count, and the count has grown by the bytes that were written in all, up to the
  -- largest 64-bit number, where it stays. The count is a 64-bit number before.
  pub writes-poll_write :
      (c : Counted K) (bufs : List Bytes)
      → c.bytes < u64_mod
      → (let (last, polls) = writes (poll_write sink) c bufs in
          ((last.inner, polls) ≡ writes sink c.inner bufs)
          × (last.bytes ≡ min (c.bytes + total polls) (u64_mod - 1)))
  unfolding writes poll_write
  writes-poll_write c [] small = (refl, omega arith)
  writes-poll_write c (b ∷ bufs) small =
      let (k, p) = sink c.inner b in
      let next = count_write c k p in
      let polls = (writes (poll_write sink) next bufs).1 in
      let (small', same_total) = count_write-total c k p polls small in
      let (same, count) = writes-poll_write next bufs small' in
      (
        ap (λ x. (x.0, p ∷ x.1)) (same ∙ ap (λ s. writes sink s bufs) (count_write-inner c k p)),
        count ∙ same_total,
      )

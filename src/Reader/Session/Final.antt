-- ===== src/Reader/Session/Final.antt =====
-- A client of src/reader.rs after a failure.
use etar.Prelude.{ℕ, ◌≡◌, refl, true, Option, none, some, Result, ok, err, arith}
use etar.Errors.{Error, aborted}
use etar.Io.{empty_buf}
use etar.Open.OpenEntry.{OpenEntry}
use etar.Reader.{TarParser, called, next_entry}
use etar.Reader.Body.{lend}
use etar.Reader.Poison.{KeepsFailed, poll_entry-KeepsFailed, poll_entry-Marks}
use etar.Reader.Sequence.{is_failure, entries_in, next_entry-Marks, next_entry-aborted}
use etar.Reader.Session.{Session, after_call, Step, call, poll, Reach, here, next, Fails}

module _ {A B S : Type 0} (parser : TarParser A B S) (keeps : KeepsFailed parser.poll_body) where
  -- A marked reader, and a client that has got `n` entries.
  pub record Ended (n : ℕ) (s : Session A B) : Type 0 where
    pub marked : s.shared.body_failed ≡ true
    pub as_many : s.entries ≡ n

  failure-hands_out_none :
      (x : Option (Result (Option (OpenEntry B)) Error))
      → is_failure x ≡ true
      → entries_in parser 0 0 x ≡ 0
  failure-hands_out_none none h = refl
  failure-hands_out_none (some (err e)) h = refl
  failure-hands_out_none (some (ok o)) h = cc

  Fails-Ended : {s t : Session A B} (st : Step parser s t) → Fails parser st → Ended s.entries t
  Fails-Ended {s} (call patience rounds) failed =
      let z = failure-hands_out_none _ failed in
      record {
        marked = next_entry-Marks parser patience rounds s.reader s.shared failed;
        as_many = omega (arith, z);
      }
  Fails-Ended {s} (poll o n e) failed = record {
    marked =
        poll_entry-Marks parser keeps 0 0 (lend o s.reader.archive) s.shared (empty_buf n) failed;
    as_many = refl;
  }

  call-Ended :
      (n : ℕ) (s : Session A B) (patience rounds : ℕ)
      → Ended n s
      → Ended n (after_call parser s (next_entry parser patience rounds s.reader s.shared))
  call-Ended n s patience rounds v =
      rw (next_entry-aborted parser patience rounds s.reader s.shared v.marked)
        (record { marked = v.marked; as_many = omega (arith, v.as_many) })

  Step-Ended : {s t : Session A B} (n : ℕ) → Step parser s t → Ended n s → Ended n t
  Step-Ended {s} n (call patience rounds) v = call-Ended n s patience rounds v
  Step-Ended {s} n (poll o m e) v = record {
    marked =
        poll_entry-KeepsFailed parser keeps 0 0 (lend o s.reader.archive) s.shared (empty_buf m)
          v.marked;
    as_many = v.as_many;
  }

  Reach-Ended : {s t : Session A B} (n : ℕ) → Reach parser s t → Ended n s → Ended n t
  Reach-Ended n here v = v
  Reach-Ended n (next r st) v = Step-Ended n st (Reach-Ended n r v)

  -- Once a step of a client has failed, by a call that returned an error or was dropped or by a poll of
  -- a body that returned one, nothing that the client does gets it one more entry: the number of its
  -- entries stays what it was before that step, and whenever it calls `next_entry` again, the call
  -- returns `Aborted` and leaves the reader and the counts as they are. The parser's polls do not take
  -- the flag of a failed body back.
  pub Fails-IsFinal :
      {s s' t : Session A B} (st : Step parser s s')
      → Fails parser st
      → Reach parser s' t
      → (t.entries ≡ s.entries)
        × ((patience rounds : ℕ)
            → next_entry parser patience rounds t.reader t.shared
              ≡ called t.reader t.shared (some (err aborted)))
  Fails-IsFinal {s} {t = t} st failed r =
      let v = Reach-Ended s.entries r (Fails-Ended st failed) in
      (
        v.as_many,
        λ patience rounds. next_entry-aborted parser patience rounds t.reader t.shared v.marked,
      )

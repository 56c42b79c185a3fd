-- ===== src/Tests/Packing.antt =====
-- Files that are packed and writers that are finished, over a builder that reads a body of four bytes
-- at most and then looks for its end.
use etar.Prelude.{
  ◌+◌, ◌-◌, ◌++◌, take, min, ℕ, ◌≡◌, refl, Option, none, some, [], ◌∷◌, Bytes, codes, length, map,
  Result, ok, err, arith, false, List, if◌then◌else◌,
}
use etar.Errors.{IoError, plain, other_kind, aborted, body_length_mismatch}
use etar.Entry.{file, dir}
use etar.Io.{u64_mod, Poll, pending, ready, Shared, Poller, drain, empty_buf}
use etar.Io.Await.{read, await_turn}
use etar.Io.Contract.{Memory, poll_memory, memory-IsLawful}
use etar.Pack.{PackEntry, append, append_kind, append_file, file_appended, probed}
use etar.Pack.Body.{new_exact, poll_exact, exact_read}
use etar.Pack.Builder.{TarBuilder}
use etar.Pack.Counts.{EndsFile, drain-new_exact}
use etar.Pack.Append.{ReadsToEnd, IsExact, append-IsExact}
use etar.Writer.Count.{writes, total, writes-poll_write}
use etar.Writer.Entries.{
  is_transport, is_body_failure, FailsBy, IsFileEntry, IsMetadataEntry, append_entry-FailsBy,
}
use etar.Writer.{
  append_inner, conclude, succeeded, file_entry, metadata_entry, append_entry, poll_write,
  WritePoll, wrote, Writer, tar_builder, Closers, finish, finish_inner,
}
use etar.Writer.Poison.{append_all, all_succeeded, finish-append_all, append_all-aborted}

abbrev pub fresh : Shared
fresh = record { encoded = 0; decoded = 0; body_failed = false }

abbrev broken : IoError
broken = plain (other_kind 0) "broken"

-- Success at the end of the body only.
abbrev verdict : Poll → Bytes → Option (Result (Unit {0}) IoError)
verdict (ready (ok u)) [] = some (ok tt)
verdict (ready (ok u)) (b ∷ bs) = some (err broken)
verdict (ready (err e)) bs = some (err e)
verdict pending bs = none

abbrev pub small_builder : TarBuilder (List Bytes)
small_builder = record {
  set_link_name = λ header name. ok (record header { link_name = some name });
  append_data = λ S poll w header path s sh.
      let t = poll s sh (empty_buf 4) in
      let last = poll t.state t.shared (empty_buf 1) in
      record {
        builder = path ∷ w;
        body = last.state;
        shared = last.shared;
        result = verdict last.poll last.buf.filled;
      };
}

verdict-ok : (p : Poll) (bs : Bytes) → verdict p bs ≡ some (ok tt) → (p ≡ ready (ok tt)) × (bs ≡ [])
verdict-ok (ready (ok u)) [] h = (refl, refl)
verdict-ok (ready (ok u)) (b ∷ bs) h = cc
verdict-ok (ready (err e)) bs h = cc
verdict-ok pending bs h = cc

small_builder-ReadsToEnd : ReadsToEnd small_builder
unfolding drain
small_builder-ReadsToEnd S poll w header path s sh h =
    let t = poll s sh (empty_buf 4) in
    let last = poll t.state t.shared (empty_buf 1) in
    let (p, e) = verdict-ok last.poll last.buf.filled h in
    record {
      sizes = 4 ∷ [];
      size = 1;
      room = omega arith;
      is_ready = p;
      no_bytes = e;
      at_last = refl;
      at_after = refl;
    }

abbrev hello : Memory
hello = record { left = codes "hey"; step = 8 }

abbrev pub hello_entry : ℕ → PackEntry Memory
hello_entry size = record {
  path = record { path = codes "hello.txt" };
  meta = record { mode = 420; uid = 0; gid = 0; mtime_unix_secs = 0; kind = file };
  size = size;
  body = some hello;
}

hello-is_appended :
    (append small_builder poll_memory 2 [] (hello_entry 3) fresh).result ≡ some (ok tt)
unfolding append append_kind append_file file_appended probed poll_exact exact_read poll_memory read
    await_turn
hello-is_appended = refl

short_body_is_refused :
    (append small_builder poll_memory 2 [] (hello_entry 4) fresh).result
    ≡ some (err body_length_mismatch)
unfolding append append_kind append_file file_appended probed poll_exact exact_read poll_memory read
    await_turn
short_body_is_refused = refl

append-IsExact_example :
    (body : Memory) × (some hello ≡ some body) × IsExact poll_memory 2 body 3 fresh
append-IsExact_example =
    append-IsExact small_builder poll_memory 2 small_builder-ReadsToEnd memory-IsLawful []
      (hello_entry 3) fresh refl hello-is_appended

hello-EndsFile :
    (let d = drain (poll_exact poll_memory) (new_exact hello 3) fresh (4 ∷ []) in
      EndsFile poll_memory memory-IsLawful 1 (poll_exact poll_memory d.last d.after (empty_buf 1)))
unfolding drain poll_exact exact_read poll_memory
hello-EndsFile = record { room = omega arith; is_ready = refl; no_bytes = refl; unset = refl }

drain-new_exact_example :
    length (drain (poll_exact poll_memory) (new_exact hello 3) fresh (4 ∷ [])).bytes ≡ 3
drain-new_exact_example =
    drain-new_exact poll_memory memory-IsLawful hello 3 fresh (4 ∷ []) 1 hello-EndsFile

-- The sink is the list of the paths that were written.
abbrev closers : Closers (List Bytes) (List Bytes) (List Bytes) (List Bytes)
closers = record {
  tar_into_inner = λ w. ok (record { inner = w; bytes = 1024 });
  sink_shutdown = λ k. ok k;
  zstd_into_inner = λ w. ok w;
  encoder_shutdown = λ w. ok w;
  encoder_into_inner = λ w. record { inner = w; bytes = 30 };
}

abbrev open_writer : Writer (List Bytes) (List Bytes)
open_writer = record { inner = tar_builder []; failed = false }

abbrev entries : List (PackEntry Memory)
entries = hello_entry 3 ∷ hello_entry 4 ∷ hello_entry 3 ∷ []

finish-append_all_example :
    (let a = append_all small_builder small_builder poll_memory 2 open_writer entries fresh in
      finish closers a.0 ≡ (
        if all_succeeded small_builder small_builder poll_memory 2 a.1
        then finish_inner closers a.0.inner
        else err aborted))
finish-append_all_example =
    finish-append_all small_builder small_builder poll_memory 2 closers open_writer entries fresh
      refl

-- The body of the entry is shorter than was declared.
short_entry-fails :
    succeeded
      (append_entry small_builder small_builder poll_memory 2 open_writer
        (hello_entry 4)
        fresh).result
    ≡ false
unfolding append_entry append_inner conclude append append_kind append_file file_appended probed
    poll_exact exact_read poll_memory read await_turn
short_entry-fails = refl

append_all-aborted_example :
    (let a =
        append_entry small_builder small_builder poll_memory 2 open_writer (hello_entry 4) fresh in
      append_all small_builder small_builder poll_memory 2 a.writer entries a.shared
      ≡ (a.writer, map (λ _. some (err aborted)) entries))
append_all-aborted_example =
    append_all-aborted small_builder small_builder poll_memory 2 open_writer (hello_entry 4) entries
      fresh short_entry-fails

-- A sink that takes four bytes at a time.
abbrev poll_sink : Bytes → Bytes → Bytes × WritePoll
poll_sink sink buf = (sink ++ take 4 buf, wrote (length (take 4 buf)))

writes-poll_write_example :
    (let (last, polls) =
        writes
          (poll_write poll_sink)
          (record { inner = []; bytes = u64_mod - 6 })
          (codes "hello" ∷ codes "hey" ∷ []) in
      ((last.inner, polls) ≡ writes poll_sink [] (codes "hello" ∷ codes "hey" ∷ []))
      × (last.bytes ≡ min (u64_mod - 6 + total polls) (u64_mod - 1)))
writes-poll_write_example =
    writes-poll_write poll_sink (record { inner = []; bytes = u64_mod - 6 })
      (codes "hello" ∷ codes "hey" ∷ []) (omega arith)

abbrev directory_entry : PackEntry (Unit {0})
directory_entry = record {
  path = record { path = codes "docs" };
  meta = record { mode = 493; uid = 0; gid = 0; mtime_unix_secs = 0; kind = dir };
  size = 0;
  body = none;
}

hello-IsFileEntry : IsFileEntry (hello_entry 4)
unfolding file_entry
hello-IsFileEntry = record {
  path = (hello_entry 4).path;
  meta = (hello_entry 4).meta;
  size = 4;
  body = hello;
  made = refl;
}

directory-IsMetadataEntry : IsMetadataEntry directory_entry
unfolding metadata_entry
directory-IsMetadataEntry = record {
  path = directory_entry.path;
  meta = directory_entry.meta;
  made = refl;
}

-- A body that the writer must not poll.
abbrev poll_broken : Poller (Unit {0})
poll_broken s sh buf = record { state = s; shared = sh; buf = buf; poll = ready (err broken) }

append_entry-FailsBy_example :
    FailsBy is_body_failure
      (append_entry small_builder small_builder poll_memory 2 open_writer
        (hello_entry 4)
        fresh).result
    × FailsBy is_transport
        (append_entry small_builder small_builder poll_broken 2 open_writer directory_entry
          fresh).result
append_entry-FailsBy_example =
    append_entry-FailsBy small_builder small_builder 2 poll_memory poll_broken open_writer
      (hello_entry 4) directory_entry fresh refl hello-IsFileEntry directory-IsMetadataEntry

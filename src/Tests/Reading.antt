-- ===== src/Tests/Reading.antt =====
-- Calls of `next_entry` over a parser that yields the same entry for ever, and over one that fails.
use etar.Prelude.{◌≤◌, ◌≡◌, refl, Option, none, some, codes, Result, ok, err, arith, true, false}
use etar.Errors.{IoError, plain, other_kind, aborted}
use etar.Limits.{SecurityLimits, default}
use etar.Entry.{
  file, new_safe_path, validate, reject_all, reject_unsafe, components, components_of, pieces,
  later_components, later_component,
}
use etar.Io.{ready, Shared, empty_buf}
use etar.Io.Contract.{is_error, Memory, poll_memory}
use etar.Open.OpenEntry.{
  TarEntry, OpenEntry, poll_open, validate_path, classify, classify_type, read_meta, small_id,
  open_entry,
}
use etar.Pack.Builder.{regular}
use etar.Reader.{
  TarParser, Reader, new_reader, called, next_entry, next_from, on_next, accept, conclude_accept,
}
use etar.Open.Bounded.{new_bounded, poll_bounded}
use etar.Reader.Body.{poll_entry}
use etar.Reader.Sequence.{accepted, is_failure, accepted-new_reader, next_entry-poisons}

abbrev fresh : Shared
fresh = record { encoded = 0; decoded = 0; body_failed = false }

abbrev empty_file : TarEntry (Unit {0})
empty_file = record {
  path = ok (codes "a");
  entry_type = regular;
  size = ok 0;
  link_name = ok none;
  mode = ok 420;
  uid = ok 0;
  gid = ok 0;
  mtime = ok 0;
  body = tt;
}

abbrev broken : IoError
broken = plain (other_kind 0) "broken"

-- The parser of an archive that gives the same at every call.
abbrev constant_parser :
    Option (Result (TarEntry (Unit {0})) IoError) → TarParser (Unit {0}) (Unit {0}) Memory
constant_parser next = record {
  next = λ a sh. record { archive = a; shared = sh; result = some next };
  poll_body = λ s sh buf. record { state = s; shared = sh; buf = buf; poll = ready (ok tt) };
  into_inner = λ a. err broken;
  poll_source = poll_memory;
}

abbrev two : SecurityLimits
two = record default { max_entries = 2 }

abbrev endless : TarParser (Unit {0}) (Unit {0}) Memory
endless = constant_parser (some (ok empty_file))

two_are_accepted : accepted endless 1 1 5 (new_reader tt two) fresh ≡ 2
unfolding accepted new_reader next_entry next_from on_next accept conclude_accept open_entry
    validate_path classify classify_type read_meta small_id new_safe_path validate reject_all
    reject_unsafe components components_of pieces later_components later_component
two_are_accepted = refl

accepted-new_reader_example : accepted endless 1 1 5 (new_reader tt two) fresh ≤ 2
accepted-new_reader_example = accepted-new_reader endless 1 1 5 tt two fresh (omega arith)

abbrev failing : TarParser (Unit {0}) (Unit {0}) Memory
failing = constant_parser (some (err broken))

abbrev start : Reader (Unit {0})
start = record { archive = some tt; entries = true; limits = default; seen = 0; done = false }

call-fails : is_failure (next_entry failing 1 1 start fresh).result ≡ true
unfolding next_entry next_from on_next
call-fails = refl

next_entry-poisons_example :
    (let c = next_entry failing 1 1 start fresh in
      next_entry failing 1 1 start c.shared ≡ called start c.shared (some (err aborted)))
next_entry-poisons_example = next_entry-poisons failing 1 1 start start fresh call-fails

-- An archive in which every entry's body fails.
abbrev failing_bodies : TarParser (Unit {0}) (Unit {0}) Memory
failing_bodies = record endless {
  poll_body = λ s sh buf. record { state = s; shared = sh; buf = buf; poll = ready (err broken) };
}

abbrev lent : OpenEntry (Unit {0} × Option (Unit {0}))
lent = record {
  path = record { path = codes "a" };
  meta = record { mode = 420; uid = 0; gid = 0; mtime_unix_secs = 0; kind = file };
  size_bytes = 0;
  body = new_bounded (tt, some tt) 10;
}

lent-fails : is_error (poll_entry failing_bodies lent fresh (empty_buf 4)).poll ≡ true
unfolding poll_entry poll_open poll_bounded
lent-fails = refl

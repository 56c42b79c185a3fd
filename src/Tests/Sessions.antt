-- ===== src/Tests/Sessions.antt =====
-- A client that takes an entry, reads its body and asks for one entry too many.
use etar.Prelude.{ℕ, ◌-◌, ◌≤◌, ◌*◌, ◌≡◌, false, refl, none, some, codes, ok, err, arith}
use etar.Errors.{aborted}
use etar.Limits.{SecurityLimits, default}
use etar.Entry.{
  file, new_safe_path, validate, reject_all, reject_unsafe, components, components_of, pieces,
  later_components, later_component,
}
use etar.Io.{Shared}
use etar.Io.Contract.{Memory, poll_memory}
use etar.Open.Bounded.{poll_bounded}
use etar.Open.OpenEntry.{
  TarEntry, OpenEntry, poll_open, validate_path, classify, classify_type, read_meta, small_id,
  open_entry,
}
use etar.Pack.Builder.{regular}
use etar.Reader.{
  TarParser, new_reader, called, next_entry, next_from, on_next, accept, conclude_accept,
}
use etar.Reader.Body.{poll_entry, mark_failed}
use etar.Reader.Session.Entries.{IsGuarded}
use etar.Reader.Poison.{KeepsFailed}
use etar.Reader.Session.{
  Session, new_session, after_call, after_poll, polled, call, poll, Reach, here, next, Fails,
}
use etar.Reader.Session.Bounds.{new_session-Bounds, new_session-IsGuarded}
use etar.Reader.Session.Final.{Fails-IsFinal}

abbrev fresh : Shared
fresh = record { encoded = 0; decoded = 0; body_failed = false }

abbrev text : Memory
text = record { left = codes "abc"; step = 2 }

abbrev text_file : TarEntry Memory
text_file = record {
  path = ok (codes "a");
  entry_type = regular;
  size = ok 3;
  link_name = ok none;
  mode = ok 420;
  uid = ok 0;
  gid = ok 0;
  mtime = ok 0;
  body = text;
}

-- An archive that gives the same file for ever.
abbrev text_files : TarParser (Unit {0}) Memory Memory
text_files = record {
  next = λ a sh. record { archive = a; shared = sh; result = some (some (ok text_file)) };
  poll_body = λ s sh buf.
      let t = poll_memory s.0 sh buf in
      record { state = (t.state, s.1); shared = t.shared; buf = t.buf; poll = t.poll };
  into_inner = λ a. ok text;
  poll_source = poll_memory;
}

text_files-KeepsFailed : KeepsFailed text_files.poll_body
unfolding poll_memory
text_files-KeepsFailed s sh b h = h

abbrev one_entry : SecurityLimits
one_entry = record default { max_entries = 1 }

abbrev start : Session (Unit {0}) Memory
start = new_session tt one_entry fresh

abbrev taken : Session (Unit {0}) Memory
taken = after_call text_files start (next_entry text_files 1 1 start.reader start.shared)

abbrev text_entry : OpenEntry Memory
text_entry = record {
  path = record { path = codes "a" };
  meta = record { mode = 420; uid = 0; gid = 0; mtime_unix_secs = 0; kind = file };
  size_bytes = 3;
  body = record { inner = text; remaining = one_entry.max_entry_bytes; failed = false };
}

text_entry-is_taken : taken.lent ≡ some text_entry
unfolding new_reader next_entry next_from on_next accept conclude_accept open_entry validate_path
    classify classify_type read_meta small_id new_safe_path validate reject_all reject_unsafe
    components components_of pieces later_components later_component
text_entry-is_taken = refl

abbrev begun : Session (Unit {0}) Memory
begun = after_poll text_files taken (polled text_files taken text_entry 8)

abbrev begun-Reach : Reach text_files start begun
begun-Reach = next (next here (call 1 1)) (poll text_entry 8 text_entry-is_taken)

-- The first poll hands out two bytes.
two_bytes : begun.body_bytes ≡ 2
unfolding new_reader next_entry next_from on_next accept conclude_accept open_entry validate_path
    classify classify_type read_meta small_id new_safe_path validate reject_all reject_unsafe
    components components_of pieces later_components later_component poll_entry poll_open
    poll_bounded mark_failed poll_memory
two_bytes = refl

abbrev half_read : OpenEntry Memory
half_read = record text_entry {
  body = record {
    inner = record { left = codes "c"; step = 2 };
    remaining = one_entry.max_entry_bytes - 2;
    failed = false;
  };
}

half_read-is_lent : begun.lent ≡ some half_read
unfolding poll_entry poll_open poll_bounded mark_failed poll_memory
half_read-is_lent = refl

new_session-Bounds_example :
    (begun.entries ≤ 1)
    × (begun.body_bytes ≤ begun.entries * one_entry.max_entry_bytes)
    × (begun.body_bytes ≤ 1 * one_entry.max_entry_bytes)
new_session-Bounds_example =
    new_session-Bounds text_files text_files-KeepsFailed one_entry (omega arith) tt fresh
      begun-Reach

new_session-IsGuarded_example : IsGuarded one_entry half_read
new_session-IsGuarded_example =
    new_session-IsGuarded text_files text_files-KeepsFailed one_entry (omega arith) tt fresh
      half_read begun-Reach half_read-is_lent

abbrev refused : Session (Unit {0}) Memory
refused = after_call text_files begun (next_entry text_files 1 1 begun.reader begun.shared)

second_call-Fails : Fails text_files {s = begun} (call 1 1)
unfolding new_reader next_entry next_from on_next accept conclude_accept open_entry validate_path
    classify classify_type read_meta small_id new_safe_path validate reject_all reject_unsafe
    components components_of pieces later_components later_component poll_entry poll_open
    poll_bounded mark_failed poll_memory
second_call-Fails = refl

abbrev asked_again : Session (Unit {0}) Memory
asked_again =
    after_call text_files refused (next_entry text_files 1 1 refused.reader refused.shared)

Fails-IsFinal_example :
    (asked_again.entries ≡ begun.entries)
    × ((patience rounds : ℕ)
        → next_entry text_files patience rounds asked_again.reader asked_again.shared
          ≡ called asked_again.reader asked_again.shared (some (err aborted)))
Fails-IsFinal_example =
    Fails-IsFinal text_files text_files-KeepsFailed {s = begun} {t = asked_again} (call 1 1)
      second_call-Fails (next here (call 1 1))

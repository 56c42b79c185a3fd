-- ===== src/Tests/Paths.antt =====
-- Paths, entries and PAX bodies.
use etar.Prelude.{
  ◌<◌, ◌≡◌, ◌≢◌, refl, ◌↔◌, none, some, [], ◌∷◌, ◌++◌, Bytes, codes, All, ok, err, true, false,
  List,
}
use etar.Errors.{absolute_path, parent_escape}
use etar.Limits.{default}
use etar.Entry.{
  file, new_safe_path, validate, reject_all, reject_unsafe, components, components_of, pieces,
  later_components, later_component,
}
use etar.Entry.Joined.{IsPart, rejected_iff_escape_present, leading_slash_is_absolute, join-passes}
use etar.Entry.Safe.{path_rules, destination, new_safe_path-rules, new_safe_path_in_tree}
use etar.Io.{u64_mod}
use etar.Open.OpenEntry.{TarEntry, OpenEntry}
use etar.Pack.Builder.{regular}
use etar.Guard.Pax.{
  decimal, decimal_from, add_digit, parse_pax_size, parse_record, strip_prefix, parse_records,
  position, size_of,
}
use etar.Guard.Pax.Decimal.{IsDigit, number_from, decimal-some_iff}
use etar.Guard.Pax.Records.{PaxRecord, IsWell, body_of, size_after}
use etar.Guard.Pax.Whole.{parse_pax_size-IsWhole}
use etar.Guard.Pax.Loop.{Runs, parse_pax_size-Runs, parse_pax_size-body_of}

parent_is_refused : new_safe_path (codes "a/../b") ≡ err parent_escape
unfolding new_safe_path validate reject_all reject_unsafe components components_of pieces
    later_components later_component
parent_is_refused = refl

root_is_refused : new_safe_path (codes "/etc") ≡ err absolute_path
unfolding new_safe_path validate reject_all reject_unsafe components components_of pieces
    later_components later_component
root_is_refused = refl

abbrev notes : Bytes
notes = codes "docs/./notes.txt"

notes_are_accepted : new_safe_path notes ≡ ok (record { path = notes })
unfolding new_safe_path validate reject_all reject_unsafe components components_of pieces
    later_components later_component
notes_are_accepted = refl

new_safe_path-rules_example : new_safe_path notes ≡ path_rules notes
new_safe_path-rules_example = new_safe_path-rules notes

abbrev home : List Bytes
home = codes "user" ∷ codes "home" ∷ []

new_safe_path_in_tree_example :
    (notes ≡ notes) × ((names : List Bytes) × (destination home notes ≡ names ++ home))
new_safe_path_in_tree_example = new_safe_path_in_tree home notes notes_are_accepted

abbrev notes_entry : TarEntry (Unit {0})
notes_entry = record {
  path = ok notes;
  entry_type = regular;
  size = ok 5;
  link_name = ok none;
  mode = ok 420;
  uid = ok 1000;
  gid = ok 1000;
  mtime = ok 7;
  body = tt;
}

abbrev opened_notes : OpenEntry (Unit {0})
opened_notes = record {
  path = record { path = notes };
  meta = record { mode = 420; uid = 1000; gid = 1000; mtime_unix_secs = 7; kind = file };
  size_bytes = 5;
  body = record { inner = tt; remaining = default.max_entry_bytes; failed = false };
}

leading_zeros : decimal (codes "007") ≡ some 7
unfolding decimal decimal_from add_digit
leading_zeros = refl

too_large : decimal (codes "18446744073709551616") ≡ none
unfolding decimal decimal_from add_digit
too_large = refl

decimal-some_iff_example : (decimal (codes "123") ≡ some 123) ↔ (
    (codes "123" ≢ [])
    × All IsDigit (codes "123")
    × (123 ≡ number_from 0 (codes "123"))
    × (number_from 0 (codes "123") < u64_mod))
decimal-some_iff_example = decimal-some_iff (codes "123") 123

abbrev pax_records : List PaxRecord
pax_records =
    record { digits = codes "10"; payload = codes "path=a" }
    ∷ record { digits = codes "11"; payload = codes "size=42" }
    ∷ []

pax_size_is_read : parse_pax_size (codes "11 size=42\n") ≡ ok (some 42)
unfolding parse_pax_size parse_records parse_record position decimal decimal_from add_digit size_of
    strip_prefix
pax_size_is_read = refl

pax_records-AreWell : All IsWell pax_records
unfolding decimal decimal_from add_digit
pax_records-AreWell = (
  record { counted = refl; some_payload = λ e. cc },
  (record { counted = refl; some_payload = λ e. cc }, tt),
)

parse_pax_size-body_of_example : parse_pax_size (body_of pax_records) ≡ size_after none pax_records
parse_pax_size-body_of_example = parse_pax_size-body_of pax_records pax_records-AreWell

abbrev one_record : Bytes
one_record = codes "11 size=42\n"

parse_pax_size-Runs_example : Runs one_record none (parse_pax_size one_record)
parse_pax_size-Runs_example = parse_pax_size-Runs one_record

parse_pax_size-IsWhole_example :
    (rs : List PaxRecord) × All IsWell rs
    × (codes "11 size=42\n" ≡ body_of rs)
    × (size_after none rs ≡ ok (some 42))
parse_pax_size-IsWhole_example =
    parse_pax_size-IsWhole (codes "11 size=42\n") (some 42) pax_size_is_read

-- What follows `a` in the path `a/./../b`.
abbrev up_and_down : List Bytes
up_and_down = codes "." ∷ codes ".." ∷ codes "b" ∷ []

some_parts : All IsPart (codes "a" ∷ up_and_down)
some_parts = (
  record { some_bytes = λ e. cc; no_slash = refl; no_zero = refl },
  (
    record { some_bytes = λ e. cc; no_slash = refl; no_zero = refl },
    (
      record { some_bytes = λ e. cc; no_slash = refl; no_zero = refl },
      (record { some_bytes = λ e. cc; no_slash = refl; no_zero = refl }, tt),
    ),
  ),
)

join-passes_example :
    (rejected_iff_escape_present (codes "a" ∷ up_and_down) ≡ true)
    × (leading_slash_is_absolute (codes "a" ∷ up_and_down) ≡ true)
join-passes_example = join-passes (codes "a") up_and_down some_parts

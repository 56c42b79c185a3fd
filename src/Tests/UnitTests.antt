-- ===== src/Tests/UnitTests.antt =====
-- The unit tests of src/entry.rs and src/limits.rs, and those of src/compress.rs that need no zstd
-- encoder, which the model passes.
use etar.Prelude.{
  ℕ, zero, suc, ◌+◌, length, Option, none, some, Result, ◌≡◌, ◌++◌, refl, true, false, [], ◌∷◌,
  Bytes, codes, ok, err,
}
use etar.Errors.{IoError, absolute_path, parent_escape, empty_path, nul_path}
use etar.Io.{Shared}
use etar.Io.Await.{read, await_turn}
use etar.Io.Contract.{Memory, poll_memory}
use etar.Guard.Pax.{strip_prefix}
use etar.Compress.{decoded, select, wrap, starts_with_magic, peek, peek_read}
use etar.Settings.{default_max_entries}
use etar.Limits.{
  SecurityLimits, default, with_max_entries, with_max_entry_bytes, with_symlinks, with_hardlinks,
}
use etar.Entry.{
  new_safe_path, validate, reject_all, reject_unsafe, components, components_of, pieces,
  later_components, later_component,
}

-- `assert_eq!(SafePath::new(path).unwrap().as_path(), Path::new(path))`.
abbrev Accepts : Bytes → Type 0
Accepts path = new_safe_path path ≡ ok (record { path = path })

abbrev SafepathAcceptsRelative : Type 0
SafepathAcceptsRelative = Accepts (codes "bin/sh")

abbrev SafepathAcceptsCurrentDirPrefix : Type 0
SafepathAcceptsCurrentDirPrefix = Accepts (codes "./bin/sh")

abbrev SafepathRejectsAbsolute : Type 0
SafepathRejectsAbsolute = new_safe_path (codes "/etc/passwd") ≡ err absolute_path

abbrev SafepathRejectsLeadingParent : Type 0
SafepathRejectsLeadingParent = new_safe_path (codes "../../etc/passwd") ≡ err parent_escape

abbrev SafepathRejectsEmbeddedParent : Type 0
SafepathRejectsEmbeddedParent = new_safe_path (codes "a/../../b") ≡ err parent_escape

abbrev SafepathRejectsEmpty : Type 0
SafepathRejectsEmpty = new_safe_path [] ≡ err empty_path

abbrev SafepathRejectsNul : Type 0
SafepathRejectsNul = new_safe_path (codes "a" ++ 0 ∷ codes "b") ≡ err nul_path

safepath_tests_pass :
    SafepathAcceptsRelative × SafepathAcceptsCurrentDirPrefix × SafepathRejectsAbsolute
    × SafepathRejectsLeadingParent × SafepathRejectsEmbeddedParent × SafepathRejectsEmpty
    × SafepathRejectsNul
unfolding new_safe_path validate reject_all reject_unsafe components components_of pieces
    later_components later_component
safepath_tests_pass = (refl, refl, refl, refl, refl, refl, refl)

abbrev DefaultsAreConservative : Type 0
DefaultsAreConservative =
    (default.max_entries ≡ default_max_entries)
    × (default.allow_symlinks ≡ true)
    × (default.allow_hardlinks ≡ true)

abbrev overridden : SecurityLimits
overridden =
    with_hardlinks (with_symlinks (with_max_entry_bytes (with_max_entries default 10) 64) false)
      false

abbrev SettersOverrideDefaults : Type 0
SettersOverrideDefaults =
    (overridden.max_entries ≡ 10)
    × (overridden.max_entry_bytes ≡ 64)
    × (overridden.allow_symlinks ≡ false)
    × (overridden.allow_hardlinks ≡ false)

limits_tests_pass : DefaultsAreConservative × SettersOverrideDefaults
unfolding with_max_entries with_max_entry_bytes with_symlinks with_hardlinks
limits_tests_pass = ((refl, refl, refl), (refl, refl, refl, refl))

-- `Cursor::new`, and `BufReader` over the peeked bytes and the rest of a cursor.
abbrev cursor : Bytes → Memory
cursor bytes = record { left = bytes; step = 64 }

abbrev buffered : Bytes → Memory → Memory
buffered magic rest = cursor (magic ++ rest.left)

abbrev no_counts : Shared
no_counts = record { encoded = 0; decoded = 0; body_failed = false }

-- `read_to_end`: the reads go on until one returns nothing; every other takes a byte at least, so that
-- a round for each byte and one more are enough. `more` is the rest of the loop.
unfoldable all_read :
    (Memory → Bytes → Option (Result Bytes IoError))
    → Bytes
    → Memory
    → Option (Result Bytes IoError)
    → Option (Result Bytes IoError)
all_read more out reader none = none
all_read more out reader (some (err e)) = some (err e)
all_read more out reader (some (ok [])) = some (ok out)
all_read more out reader (some (ok (b ∷ bs))) = more reader (out ++ b ∷ bs)

unfoldable to_end : ℕ → Memory → Bytes → Option (Result Bytes IoError)
to_end zero reader out = none
to_end (suc rounds) reader out =
    let a = read poll_memory 1 reader no_counts 32 in all_read (to_end rounds) out a.state a.result

abbrev read_to_end : Option (Result Memory IoError) → Option (Result Bytes IoError)
read_to_end none = none
read_to_end (some (err e)) = some (err e)
read_to_end (some (ok reader)) = to_end (length reader.left + 1) reader []

-- The tests that use this give no bytes with the magic in front, so that no decoder is called.
abbrev read_all : Bytes → Option (Result Bytes IoError)
read_all bytes =
    read_to_end (decoded poll_memory 1 buffered buffered (cursor bytes) no_counts).result

abbrev PlainPassesThrough : Type 0
PlainPassesThrough = read_all (codes "plain bytes") ≡ some (ok (codes "plain bytes"))

abbrev EmptyInputIsEmpty : Type 0
EmptyInputIsEmpty = read_all [] ≡ some (ok [])

compress_tests_pass : PlainPassesThrough × EmptyInputIsEmpty
unfolding decoded select wrap starts_with_magic strip_prefix peek peek_read read await_turn
    poll_memory all_read to_end
compress_tests_pass = (refl, refl)

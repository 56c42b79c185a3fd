-- ===== src/Tests/Validation.antt =====
-- `validate` on an archive of two empty files, and the trailer that it reads.
use etar.Prelude.{
  ℕ, zero, suc, ◌+◌, ◌≡◌, [], refl, Option, none, some, codes, length, replicate, ok, arith, false,
}
use etar.Limits.{SecurityLimits, default}
use etar.Entry.{
  new_safe_path, validate, reject_all, reject_unsafe, components, components_of, pieces,
  later_components, later_component,
}
use etar.Io.{ready, Shared, empty_buf}
use etar.Io.Await.{read, await_turn}
use etar.Io.Contract.{Memory, poll_memory, memory-IsLawful}
use etar.Io.Log.{Recorded, poll_recorded, recorded-IsLogged}
use etar.Open.Bounded.{poll_bounded}
use etar.Open.OpenEntry.{
  TarEntry, poll_open, validate_path, classify, classify_type, read_meta, small_id, open_entry,
}
use etar.Pack.Builder.{regular}
use etar.Reader.{
  TarParser, Reader, new_reader, next_entry, next_from, on_next, accept, conclude_accept,
  conclude_end, verify_taken, verify_blocks, block_step,
}
use etar.Reader.Trailer.{IsTrailer, verify_blocks_lem}
use etar.Reader.Body.{poll_entry, mark_failed}
use etar.Compress.{starts_with_magic, peek, peek_read, wrap, select, decoded}
use etar.Open.Meter.{poll_meter, charge_encoded, mark_io}
use etar.Reader.Open.{Parts, on_entries, on_decoded, open_reader}
use etar.Reader.Open.Opening.{KeepsShared, IsOpened}
use etar.Reader.Validate.Source.{
  on_opened, validate_source, validate_source-IsReport, validate_source_fuel,
}
use etar.Reader.Validate as Validate
use etar.Reader.Validate.{ValidationReport, Copier, copied, on_entry, validate_loop}
use etar.Reader.Validate.Verified.{IsReport}

abbrev fresh : Shared
fresh = record { encoded = 0; decoded = 0; body_failed = false }

abbrev empty_file : TarEntry (Unit {0})
empty_file = record {
  path = ok (codes "a");
  entry_type = regular;
  size = ok 0;
  link_name = ok none;
  mode = ok 420;
  uid = ok 0;
  gid = ok 0;
  mtime = ok 0;
  body = tt;
}

abbrev zeros : Memory
zeros = record { left = replicate 1024 0; step = 600 }

-- An archive is the number of the files that are left in it.
abbrev files_left : ℕ → Option (TarEntry (Unit {0})) × ℕ
files_left zero = (none, zero)
files_left (suc n) = (some empty_file, n)

abbrev small_parser : TarParser ℕ (Unit {0}) Memory
small_parser = record {
  next = λ n sh.
      let (e, m) = files_left n in
      record {
        archive = m;
        shared = sh;
        result = some (elim e [ none ↦ none | some entry ↦ some (ok entry) ]);
      };
  poll_body = λ s sh buf. record { state = s; shared = sh; buf = buf; poll = ready (ok tt) };
  into_inner = λ n. ok zeros;
  poll_source = poll_memory;
}

-- One poll, which is enough for an empty body.
abbrev copy_once : Copier
copy_once X poll x sh =
    let t = poll x sh (empty_buf 10) in
    record { state = t.state; shared = t.shared; result = some (ok (length t.buf.filled)) }

abbrev two_files : ValidationReport
two_files = record { entries = 2; encoded_bytes = 0; decoded_bytes = 0 }

two_files-are_valid :
    Validate.validate small_parser 1 4 copy_once 3 2 default fresh ≡ some (ok two_files)
unfolding Validate.validate validate_loop on_entry copied poll_entry poll_open poll_bounded
    mark_failed new_reader next_entry next_from on_next accept conclude_accept conclude_end
    verify_taken verify_blocks block_step read await_turn poll_memory open_entry validate_path
    classify classify_type read_meta small_id new_safe_path validate reject_all reject_unsafe
    components components_of pieces later_components later_component
two_files-are_valid = refl

abbrev few : SecurityLimits
few = record default { max_entries = 2 }

abbrev logged_zeros : Recorded Memory
logged_zeros = record { state = zeros; log = [] }

zeros-are_a_trailer :
    (verify_blocks (poll_recorded poll_memory) 1 100 4 logged_zeros fresh 0).result ≡ some (ok tt)
unfolding verify_blocks block_step read await_turn poll_recorded poll_memory
zeros-are_a_trailer = refl

verify_blocks_lem_example :
    IsTrailer (recorded-IsLogged poll_memory memory-IsLawful) 1 100 logged_zeros fresh 0
verify_blocks_lem_example =
    verify_blocks_lem (recorded-IsLogged poll_memory memory-IsLawful) 1 100 4 logged_zeros fresh
      zeros-are_a_trailer

-- A source whose archive holds two files.
abbrev parts : Parts (Recorded Memory) (Unit {0}) ℕ
parts = record {
  plain = λ magic rest. tt;
  zstd = λ magic rest. tt;
  archive = λ g. 2;
  entries = λ a. ok tt;
}

abbrev source : Recorded Memory
source = record { state = record { left = codes "abc"; step = 2 }; log = [] }

abbrev two_files_of_source : ValidationReport
two_files_of_source = record { entries = 2; encoded_bytes = 3; decoded_bytes = 0 }

source-is_valid :
    validate_source parts (poll_recorded poll_memory) small_parser 4 4 copy_once 3 source default
    ≡ some (ok two_files_of_source)
unfolding validate_source on_opened open_reader decoded select wrap starts_with_magic peek peek_read
    poll_meter charge_encoded mark_io poll_recorded on_decoded on_entries validate_loop on_entry
    copied poll_entry poll_open poll_bounded mark_failed new_reader next_entry next_from on_next
    accept conclude_accept conclude_end verify_taken verify_blocks block_step read await_turn
    poll_memory open_entry validate_path classify classify_type read_meta small_id new_safe_path
    validate reject_all reject_unsafe components components_of pieces later_components
    later_component
source-is_valid = refl

source-KeepsShared : KeepsShared (poll_recorded poll_memory)
unfolding poll_recorded poll_memory
source-KeepsShared s sh b = refl

validate_source-IsReport_example :
    (let o = open_reader parts default (poll_recorded poll_memory) 4 source in
      (r : Reader ℕ) × IsOpened
        (recorded-IsLogged poll_memory memory-IsLawful)
        parts
        default
        source
        o.shared
        r
      × IsReport small_parser 4 4 copy_once r o.shared 0 two_files_of_source)
validate_source-IsReport_example =
    validate_source-IsReport parts (poll_recorded poll_memory) small_parser 4 4 copy_once
      (recorded-IsLogged poll_memory memory-IsLawful) source-KeepsShared 3 source default
      (omega arith) source-is_valid

validate_source_fuel_example :
    validate_source parts
      (poll_recorded poll_memory)
      small_parser
      4
      4
      copy_once
      (2 + 1 + 5)
      source
      few
    ≡ validate_source parts
        (poll_recorded poll_memory)
        small_parser
        4
        4
        copy_once
        (2 + 1)
        source
        few
validate_source_fuel_example =
    validate_source_fuel parts (poll_recorded poll_memory) small_parser 4 4 copy_once
      (recorded-IsLogged poll_memory memory-IsLawful) source-KeepsShared source few 5 (omega arith)

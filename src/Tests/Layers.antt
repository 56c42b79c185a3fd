-- ===== src/Tests/Layers.antt =====
-- The layers of a reader over a source in memory.
use etar.Prelude.{
  ℕ, ◌≤◌, ◌≡◌, refl, ◌⊎◌, Option, none, some, [], ◌∷◌, ◌++◌, Bytes, codes, length, ok, arith, false,
  List, replicate,
}
use etar.Io.{Shared, drain, empty_buf, fetch_add}
use etar.Io.Contract.{Memory, poll_memory, memory-IsLawful, KeepsDecoded, KeepsEncoded}
use etar.Io.Log.{poll_recorded, recorded-IsLogged, log_of}
use etar.Open.Meter.{Meter, poll_meter, drain-poll_meter-encoded}
use etar.Open.Bounded.{new_bounded, poll_bounded, drain-poll_bounded-le-max}
use etar.Open.Cap.Total.{drain-poll_cap-le-max}
use etar.Open.Cap.Outcome.{PassesOn, CutsOff, poll_cap-outcome}
use etar.Open.Cap.{Cap, new_cap, poll_cap}
use etar.Guard.{HeaderGuard, new_guard, inspect, inspect_size, open_pax, set_next_data}
use etar.Guard.Reading.{poll_guard}
use etar.Guard.Framed.{held}
use etar.Guard.Transparent.{drain-new_guard}
use etar.Guard.Bounded.{IsBounded, drain-new_guard-IsBounded}
use etar.Guard.Inspect.{LetsThrough, inspect-LetsThrough}
use etar.Settings.{peek_len}
use etar.Io.Await.{read, await_turn}
use etar.Compress.{peek, peek_read}
use etar.Compress.Peek.{IsPeek, peek_lem}

abbrev pub fresh : Shared
fresh = record { encoded = 0; decoded = 0; body_failed = false }

-- The header of a file: a name, its type, and no more.
abbrev pub file_header : Bytes
file_header = replicate 156 b'a' ++ b'0' ∷ replicate 355 0

-- A file of 300 bytes, its padding, and a trailer, in pieces of 200 bytes.
abbrev pub small_tar : Memory
small_tar = record { left = file_header ++ replicate 512 7 ++ replicate 1024 0; step = 200 }

abbrev pub size_300 : Bytes → Option ℕ
size_300 header = some 300

abbrev pub sizes : List ℕ
sizes = 100 ∷ 0 ∷ 700 ∷ 50 ∷ 3000 ∷ []

drain-new_guard_example :
    (let d =
        drain
          (poll_guard (poll_recorded poll_memory) size_300)
          (new_guard (record { state = small_tar; log = [] }) 1000)
          fresh
          sizes in
      (d.bytes ++ held d.last ≡ d.last.inner.log) × (length (held d.last) ≤ 512))
drain-new_guard_example =
    drain-new_guard poll_memory memory-IsLawful size_300 small_tar 1000 fresh sizes

drain-new_guard-IsBounded_example :
    IsBounded 1000
      (drain (poll_guard poll_memory size_300) (new_guard small_tar 1000) fresh sizes).last
drain-new_guard-IsBounded_example =
    drain-new_guard-IsBounded poll_memory size_300 small_tar 1000 fresh sizes

-- A guard that has just read the header of a file.
abbrev at_file : HeaderGuard Memory
at_file = record {
  inner = small_tar;
  header = file_header;
  filled = 512;
  emitted = 0;
  data_remaining = 0;
  next_data = 0;
  next_trailer = false;
  trailer = false;
  max_metadata_bytes = 1000;
  pax_body = none;
  pax_remaining = 0;
  pax_size = none;
}

file-is_accepted : (inspect size_300 at_file).1 ≡ ok tt
unfolding inspect inspect_size open_pax set_next_data
file-is_accepted = refl

file-covers_a_block : (inspect size_300 at_file).0.next_data ≡ 512
unfolding inspect inspect_size open_pax set_next_data
file-covers_a_block = refl

inspect-LetsThrough_example :
    (raw_size : ℕ) × (some 300 ≡ some raw_size)
    × LetsThrough at_file (inspect size_300 at_file).0 raw_size
inspect-LetsThrough_example = inspect-LetsThrough size_300 at_file refl file-is_accepted

pub memory-KeepsDecoded : KeepsDecoded poll_memory
unfolding poll_memory
memory-KeepsDecoded s sh b = refl

memory-KeepsEncoded : KeepsEncoded poll_memory
unfolding poll_memory
memory-KeepsEncoded s sh b = refl

abbrev some_bytes : Memory
some_bytes = record { left = replicate 40 1; step = 16 }

abbrev small_sizes : List ℕ
small_sizes = 10 ∷ 20 ∷ 30 ∷ []

drain-poll_cap-le-max_example :
    length (drain (poll_cap poll_memory) (new_cap some_bytes 25 100) fresh small_sizes).bytes ≤ 25
drain-poll_cap-le-max_example =
    drain-poll_cap-le-max poll_memory memory-IsLawful memory-KeepsDecoded some_bytes 25 100 fresh
      small_sizes refl (omega arith, (omega arith, (omega arith, tt)))

abbrev cap_10 : Cap Memory
cap_10 = new_cap some_bytes 10 100

poll_cap-outcome_example :
    PassesOn cap_10
      (empty_buf 30)
      (poll_memory some_bytes fresh (empty_buf 30))
      (poll_cap poll_memory cap_10 fresh (empty_buf 30))
    ⊎ CutsOff (empty_buf 30) (poll_cap poll_memory cap_10 fresh (empty_buf 30))
poll_cap-outcome_example =
    poll_cap-outcome poll_memory memory-IsLawful cap_10 fresh (empty_buf 30) refl

drain-poll_bounded-le-max_example :
    length (drain (poll_bounded poll_memory) (new_bounded some_bytes 12) fresh small_sizes).bytes
    ≤ 12
drain-poll_bounded-le-max_example =
    drain-poll_bounded-le-max poll_memory some_bytes 12 fresh small_sizes

abbrev metered : Meter Memory
metered = record { inner = some_bytes }

drain-poll_meter-encoded_example :
    (drain (poll_meter poll_memory) metered fresh small_sizes).after.encoded
    ≡ fetch_add 0 (length (drain (poll_meter poll_memory) metered fresh small_sizes).bytes)
drain-poll_meter-encoded_example =
    drain-poll_meter-encoded poll_memory memory-KeepsEncoded metered fresh small_sizes (omega arith)

abbrev short_source : Memory
short_source = record { left = codes "abc"; step = 2 }

short_source-is_peeked :
    (peek
      (poll_recorded poll_memory)
      3
      peek_len
      []
      (record { state = short_source; log = [] })
      fresh).result
    ≡ some (ok (codes "abc"))
unfolding peek peek_read read await_turn poll_recorded poll_memory
short_source-is_peeked = refl

peek_lem_example :
    IsPeek log_of
      (poll_recorded poll_memory)
      3
      []
      (record { state = short_source; log = [] })
      fresh
      (peek
        (poll_recorded poll_memory)
        3
        peek_len
        []
        (record { state = short_source; log = [] })
        fresh).state
      (codes "abc")
peek_lem_example =
    peek_lem (recorded-IsLogged poll_memory memory-IsLawful) 3
      (record { state = short_source; log = [] }) fresh (codes "abc") short_source-is_peeked

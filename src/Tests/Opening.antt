-- ===== src/Tests/Opening.antt =====
-- `Reader::open` of src/reader.rs over a source in memory.
use etar.Prelude.{◌≤◌, ◌≡◌, refl, some, [], Bytes, length, ok, arith, codes}
use etar.Io.{drain}
use etar.Io.Contract.{Memory, poll_memory, memory-IsLawful}
use etar.Io.Await.{read, await_turn}
use etar.Io.Log.{Recorded, poll_recorded, recorded-IsLogged}
use etar.Limits.{SecurityLimits, default}
use etar.Open.Cap.{Cap, poll_cap}
use etar.Open.Meter.{Meter, poll_meter, charge_encoded, mark_io}
use etar.Compress.{starts_with_magic, peek, peek_read, wrap, select, decoded}
use etar.Guard.{HeaderGuard}
use etar.Guard.Reading.{poll_guard}
use etar.Reader.{new_reader}
use etar.Reader.Open.{Parts, layers, on_entries, on_decoded, open_reader}
use etar.Reader.Open.Layers.{drain-layers-le-max}
use etar.Reader.Open.Opening.{KeepsShared, IsOpened, open_reader-IsOpened}
use etar.Tests.Layers.{fresh, size_300, sizes, small_tar, memory-KeepsDecoded}

abbrev limits_1000 : SecurityLimits
limits_1000 = record default { max_total_bytes = 1000 }

drain-layers-le-max_example :
    length
      (drain
        (poll_guard (poll_cap poll_memory) size_300)
        (layers limits_1000 small_tar)
        fresh
        sizes).bytes
    ≤ 1000
drain-layers-le-max_example =
    drain-layers-le-max poll_memory size_300 memory-IsLawful memory-KeepsDecoded limits_1000
      small_tar fresh sizes 3000 (omega arith)
      (omega arith, (omega arith, (omega arith, (omega arith, (omega arith, tt))))) (omega arith)
      refl

-- A source that knows its history.
abbrev Source : Type 0
Source = Recorded Memory

abbrev source : Source
source = record { state = record { left = codes "abc"; step = 2 }; log = [] }

source-KeepsShared : KeepsShared (poll_recorded poll_memory)
unfolding poll_recorded poll_memory
source-KeepsShared s sh b = refl

-- Decoders that keep what they are given, and an archive that keeps its layers.
abbrev parts : Parts Source (Bytes × Meter Source) (HeaderGuard (Cap (Bytes × Meter Source)))
parts = record {
  plain = λ magic rest. (magic, rest);
  zstd = λ magic rest. (magic, rest);
  archive = λ g. g;
  entries = λ g. ok tt;
}

-- The archive of the reader that `open` returns.
abbrev archive : HeaderGuard (Cap (Bytes × Meter Source))
archive = layers default (
  codes "abc",
  record { inner = record { state = record { left = []; step = 2 }; log = codes "abc" } },
)

source-opens :
    (open_reader parts default (poll_recorded poll_memory) 4 source).result
    ≡ some (ok (new_reader archive default))
unfolding open_reader decoded select wrap starts_with_magic peek peek_read read await_turn
    poll_meter charge_encoded mark_io poll_recorded poll_memory on_decoded on_entries
source-opens = refl

open_reader-IsOpened_example :
    IsOpened
      (recorded-IsLogged poll_memory memory-IsLawful)
      parts
      default
      source
      (open_reader parts default (poll_recorded poll_memory) 4 source).shared
      (new_reader archive default)
open_reader-IsOpened_example =
    open_reader-IsOpened (recorded-IsLogged poll_memory memory-IsLawful) parts default 4
      source-KeepsShared source source-opens

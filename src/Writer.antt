-- ===== src/Writer.antt =====
-- src/writer.rs: the writer as a state machine over the builder and the sink. `tokio_tar::Builder` and
-- the zstd encoder are the parameter `tar`; `none` stands for a future that was dropped.
pub mod Poison
pub mod Count
pub mod Entries
pub mod RoundTrip
use etar.Prelude.{
  ℕ, ◌+◌, ◌-◌, Bool, true, false, not, Option, none, some, Bytes, ltb, if◌then◌else◌, Result, ok,
  err, ◌>>=◌,
}
use etar.Errors.{Error, io, IoError, invalid_entry_kind, aborted}
use etar.Entry.{Kind, is_file, Meta, SafePath}
use etar.Io.{Poll, Shared, Poller, saturating_add}
use etar.Pack.{PackEntry, Packed, append}
use etar.Pack.Builder.{TarBuilder}

pub data Format : Type 0 where
  tar tar_zstd : Format

-- `WriteEntry::file` and `WriteEntry::metadata`.
unfoldable pub file_entry : {B : Type 0} → SafePath → Meta → ℕ → B → Result (PackEntry B) Error
file_entry path meta size body =
    if not (is_file meta.kind)
    then err invalid_entry_kind
    else ok (record { path = path; meta = meta; size = size; body = some body })

unfoldable pub metadata_entry : SafePath → Meta → Result (PackEntry (Unit {0})) Error
metadata_entry path meta =
    if is_file meta.kind
    then err invalid_entry_kind
    else ok (record { path = path; meta = meta; size = 0; body = none })

-- `Counted`: the sink and the bytes that it has taken. `saturating_add` stops at the largest `u64`.
pub record Counted (K : Type 0) : Type 0 where
  pub inner : K
  pub bytes : ℕ

-- `Poll<io::Result<usize>>` of `poll_write`.
pub data WritePoll : Type 0 where
  write_pending : WritePoll
  wrote : ℕ → WritePoll
  write_failed : IoError → WritePoll

unfoldable pub count_write : {K : Type 0} → Counted K → K → WritePoll → Counted K
count_write c k (wrote n) = record { inner = k; bytes = saturating_add c.bytes n }
count_write c k write_pending = record c { inner = k }
count_write c k (write_failed e) = record c { inner = k }

unfoldable pub poll_write :
    {K : Type 0} → (K → Bytes → K × WritePoll) → Counted K → Bytes → Counted K × WritePoll
poll_write sink c buf = let (k, p) = sink c.inner buf in (count_write c k p, p)

-- The sink's own flush.
unfoldable pub poll_flush : {K : Type 0} → (K → K × Poll) → Counted K → Counted K × Poll
poll_flush flush c = let (k, p) = flush c.inner in (record c { inner = k }, p)

-- `Inner`: the builder over the counted sink, or over an encoder over it.
pub data Inner (T Z : Type 0) : Type 0 where
  tar_builder : T → Inner T Z
  zstd_builder : Z → Inner T Z

pub record Writer (T Z : Type 0) : Type 0 where
  pub inner : Inner T Z
  pub failed : Bool

-- `Builder::new(sink)` and `Builder::new(ZstdEncoder::new(sink))` are the two functions.
unfoldable pub new_writer :
    {K T Z : Type 0} → (Counted K → T) → (Counted K → Z) → K → Format → Writer T Z
new_writer plain zstd sink Format.tar = record {
  inner = tar_builder (plain (record { inner = sink; bytes = 0 }));
  failed = false;
}
new_writer plain zstd sink tar_zstd = record {
  inner = zstd_builder (zstd (record { inner = sink; bytes = 0 }));
  failed = false;
}

abbrev pub succeeded : {A E : Type 0} → Option (Result A E) → Bool
succeeded none = false
succeeded (some (ok a)) = true
succeeded (some (err e)) = false

-- A writer after a call.
pub record Written (T Z : Type 0) : Type 0 where
  pub writer : Writer T Z
  pub shared : Shared
  pub result : Option (Result (Unit {0}) Error)

-- `AbortOnDrop`: unless the append succeeded, the writer is marked as failed, also when the future is
-- dropped.
unfoldable pub conclude : {W T Z : Type 0} → (W → Inner T Z) → Packed W → Written T Z
conclude wrap p = record {
  writer = record { inner = wrap p.builder; failed = not (succeeded p.result) };
  shared = p.shared;
  result = p.result;
}

module _ {T Z B : Type 0} (plain : TarBuilder T) (zstd : TarBuilder Z) (poll : Poller B)
    (patience : ℕ) where
  unfoldable pub append_inner : Inner T Z → PackEntry B → Shared → Written T Z
  append_inner (tar_builder t) e sh = conclude tar_builder (append plain poll patience t e sh)
  append_inner (zstd_builder z) e sh = conclude zstd_builder (append zstd poll patience z e sh)

  unfoldable pub append_entry : Writer T Z → PackEntry B → Shared → Written T Z
  append_entry w e sh =
      if w.failed
      then record { writer = w; shared = sh; result = some (err aborted) }
      else append_inner w.inner e sh

-- `WriteOutput`.
pub record WriteOutput (K : Type 0) : Type 0 where
  pub sink : K
  pub encoded_bytes : ℕ

-- `poll_shutdown` of `Counted`, awaited: the sink's own.
unfoldable pub shutdown_counted :
    {K : Type 0} → (K → Result K IoError) → Counted K → Result (Counted K) IoError
shutdown_counted shutdown c = do k ← shutdown c.inner; ok (record c { inner = k })

unfoldable pub output : {K : Type 0} → Result (Counted K) IoError → Result (WriteOutput K) Error
output (err e) = err (io e)
output (ok c) = ok (record { sink = c.inner; encoded_bytes = c.bytes })

-- What `finish` calls of the builders, the encoder `Enc` and the sink, awaited.
pub record Closers (K Enc T Z : Type 0) : Type 0 where
  pub tar_into_inner : T → Result (Counted K) IoError
  pub sink_shutdown : K → Result K IoError
  pub zstd_into_inner : Z → Result Enc IoError
  pub encoder_shutdown : Enc → Result Enc IoError
  pub encoder_into_inner : Enc → Counted K

module _ {K Enc T Z : Type 0} (close : Closers K Enc T Z) where
  unfoldable pub finish_inner : Inner T Z → Result (WriteOutput K) Error
  unfolding shutdown_counted output
  finish_inner (tar_builder t) =
      output (do sink ← close.tar_into_inner t; shutdown_counted close.sink_shutdown sink)
  finish_inner (zstd_builder z) = output (do
    encoder ← close.zstd_into_inner z
    closed ← close.encoder_shutdown encoder
    ok (close.encoder_into_inner closed))

  unfoldable pub finish : Writer T Z → Result (WriteOutput K) Error
  finish w = if w.failed then err aborted else finish_inner w.inner

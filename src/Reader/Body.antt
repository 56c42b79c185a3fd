-- ===== src/Reader/Body.antt =====
-- `ReadEntry` of src/reader.rs: the entry that is lent out. Its body is polled through the archive that
-- it shares with the reader.
use etar.Prelude.{ℕ, Option, ok, err}
use etar.Entry.{Meta, SafePath}
use etar.Io.{Poll, pending, ready, Shared, Poller}
use etar.Open.OpenEntry.{OpenEntry, poll_open}
use etar.Reader.{TarParser, abort}

pub record EntryHeader : Type 0 where
  pub path : SafePath
  pub meta : Meta
  pub size_bytes : ℕ

unfoldable pub header : {B : Type 0} → OpenEntry B → EntryHeader
header o = record { path = o.path; meta = o.meta; size_bytes = o.size_bytes }

-- An entry, with the reader's archive beside its body.
abbrev pub lend : {A B : Type 0} → OpenEntry B → Option A → OpenEntry (B × Option A)
lend o archive = record {
  path = o.path;
  meta = o.meta;
  size_bytes = o.size_bytes;
  body = record {
    inner = (o.body.inner, archive);
    remaining = o.body.remaining;
    failed = o.body.failed;
  };
}

-- A body that fails marks the reader.
unfoldable pub mark_failed : Poll → Shared → Shared
mark_failed pending sh = sh
mark_failed (ready (ok u)) sh = sh
mark_failed (ready (err e)) sh = abort sh

unfoldable pub poll_entry : {A B S : Type 0} → TarParser A B S → Poller (OpenEntry (B × Option A))
poll_entry parser e sh buf =
    let t = poll_open parser.poll_body e sh buf in record t { shared = mark_failed t.poll t.shared }

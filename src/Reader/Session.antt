-- ===== src/Reader/Session.antt =====
-- What a client can do with a `Reader` of src/reader.rs: it calls `next_entry`, and polls the body of
-- the entry that it has been lent until the next call, in any order and as often as it likes. It may
-- drop the future of a call at any point.
pub mod Entries
pub mod Invariant
pub mod Bounds
pub mod Final
use etar.Prelude.{ℕ, ◌+◌, ◌≡◌, true, Option, none, some, length, Result, ok, err}
use etar.Errors.{Error}
use etar.Io.{Shared, Turn, empty_buf}
use etar.Io.Contract.{is_error}
use etar.Limits.{SecurityLimits}
use etar.Open.OpenEntry.{OpenEntry}
use etar.Reader.{TarParser, Reader, new_reader, Called, next_entry}
use etar.Reader.Body.{lend, poll_entry}
use etar.Reader.Sequence.{is_failure, entries_in}

-- The reader, its counts, the entry that is lent out, and what the client has got so far: entries, and
-- bytes of bodies.
pub record Session (A B : Type 0) : Type 0 where
  pub reader : Reader A
  pub shared : Shared
  pub lent : Option (OpenEntry B)
  pub entries : ℕ
  pub body_bytes : ℕ

abbrev pub new_session : {A B : Type 0} → A → SecurityLimits → Shared → Session A B
new_session archive limits sh = record {
  reader = new_reader archive limits;
  shared = sh;
  lent = none;
  entries = 0;
  body_bytes = 0;
}

-- The entry that a call hands out.
abbrev pub lent_by :
    {B : Type 0} → Option (Result (Option (OpenEntry B)) Error) → Option (OpenEntry B)
lent_by none = none
lent_by (some (err e)) = none
lent_by (some (ok o)) = o

-- An entry as the client keeps it, without the archive.
abbrev pub kept : {A B : Type 0} → OpenEntry (B × Option A) → OpenEntry B
kept o = record {
  path = o.path;
  meta = o.meta;
  size_bytes = o.size_bytes;
  body = record { inner = o.body.inner.0; remaining = o.body.remaining; failed = o.body.failed };
}

module _ {A B S : Type 0} (parser : TarParser A B S) where
  abbrev pub after_call : Session A B → Called A (Option (OpenEntry B)) → Session A B
  after_call s c = record {
    reader = c.reader;
    shared = c.shared;
    lent = lent_by c.result;
    entries = s.entries + entries_in parser 0 0 c.result;
    body_bytes = s.body_bytes;
  }

  abbrev pub after_poll : Session A B → Turn (OpenEntry (B × Option A)) → Session A B
  after_poll s t = record s {
    reader = record s.reader { archive = t.state.body.inner.1 };
    shared = t.shared;
    lent = some (kept t.state);
    body_bytes = s.body_bytes + length t.buf.filled;
  }

  abbrev pub polled : Session A B → OpenEntry B → ℕ → Turn (OpenEntry (B × Option A))
  polled s o n = poll_entry parser (lend o s.reader.archive) s.shared (empty_buf n)

  pub data Step (s : Session A B) : Session A B → Type 0 where
    call :
        (patience rounds : ℕ)
        → Step s (after_call s (next_entry parser patience rounds s.reader s.shared))
    poll : (o : OpenEntry B) (n : ℕ) → s.lent ≡ some o → Step s (after_poll s (polled s o n))

  pub data Reach (s : Session A B) : Session A B → Type 0 where
    here : Reach s s
    next : {t u : Session A B} → Reach s t → Step t u → Reach s u

  -- A step whose call fails or is dropped, or whose poll fails.
  abbrev pub Fails : {s t : Session A B} → Step s t → Type 0
  Fails {s} (call patience rounds) =
      is_failure (next_entry parser patience rounds s.reader s.shared).result ≡ true
  Fails {s} (poll o n e) = is_error (polled s o n).poll ≡ true

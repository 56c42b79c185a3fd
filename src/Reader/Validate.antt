-- ===== src/Reader/Validate.antt =====
-- `validate` of src/reader.rs behind the opening of its reader. `tokio::io::copy` into a sink is the
-- parameter `copy`; `none` stands for a future that was dropped.
pub mod Report
pub mod Verified
pub mod Source
use etar.Prelude.{ℕ, zero, suc, Option, none, some, Result, ok, err}
use etar.Errors.{Error, IoError}
use etar.Limits.{SecurityLimits}
use etar.Io.{Shared, Poller, fetch_add}
use etar.Io.Await.{Awaited}
use etar.Open.OpenEntry.{OpenEntry, read_error}
use etar.Reader.{TarParser, Reader, new_reader, Called, encoded_bytes, decoded_bytes, next_entry}
use etar.Reader.Body.{lend, poll_entry}

pub record ValidationReport : Type 0 where
  pub entries : ℕ
  pub encoded_bytes : ℕ
  pub decoded_bytes : ℕ

abbrev pub Copier : Type 1
Copier = (X : Type 0) → Poller X → X → Shared → Awaited X (Result ℕ IoError)

module _ {A B S : Type 0} (parser : TarParser A B S) (patience rounds : ℕ) (copy : Copier) where
  -- A round of the loop behind the copy, on what the copy gave; `more` is the rest of the loop.
  unfoldable pub copied :
      (Reader A → Shared → ℕ → Option (Result ValidationReport Error))
      → Reader A
      → ℕ
      → Awaited (OpenEntry (B × Option A)) (Result ℕ IoError)
      → Option (Result ℕ IoError)
      → Option (Result ValidationReport Error)
  copied more r entries a none = none
  copied more r entries a (some (err e)) =
      some (err (read_error e a.shared r.limits.max_total_bytes))
  copied more r entries a (some (ok n)) =
      more (record r { archive = a.state.body.inner.1 }) a.shared (fetch_add entries 1)

  -- A round of the loop, on what `next_entry` gave.
  unfoldable pub on_entry :
      (Reader A → Shared → ℕ → Option (Result ValidationReport Error))
      → ℕ
      → Called A (Option (OpenEntry B))
      → Option (Result (Option (OpenEntry B)) Error)
      → Option (Result ValidationReport Error)
  on_entry more entries c none = none
  on_entry more entries c (some (err e)) = some (err e)
  on_entry more entries c (some (ok none)) = some (
      ok (record {
        entries = entries;
        encoded_bytes = encoded_bytes c.shared;
        decoded_bytes = decoded_bytes c.shared;
      }))
  on_entry more entries c (some (ok (some o))) =
      let a =
        copy (OpenEntry (B × Option A)) (poll_entry parser) (lend o c.reader.archive) c.shared in
      copied more c.reader entries a a.result

  -- The loop, with fuel for its calls of `next_entry`.
  unfoldable pub validate_loop : ℕ → Reader A → Shared → ℕ → Option (Result ValidationReport Error)
  validate_loop zero r sh entries = none
  validate_loop (suc calls) r sh entries =
      let c = next_entry parser patience rounds r sh in
      on_entry (validate_loop calls) entries c c.result

  unfoldable pub validate : ℕ → A → SecurityLimits → Shared → Option (Result ValidationReport Error)
  validate calls archive limits sh = validate_loop calls (new_reader archive limits) sh 0

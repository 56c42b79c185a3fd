-- ===== src/Reader/Validate/Source.antt =====
-- `validate` of src/reader.rs from a source: `Reader::open`, and the loop over the entries behind it.
use etar.Prelude.{
  ℕ, ◌+◌, ◌-◌, ◌<◌, ◌≡◌, refl, ap, sym, ◌∙◌, subst, Option, none, some, Bytes, Result, ok, err,
}
use etar.Errors.{Error}
use etar.Limits.{SecurityLimits}
use etar.Io.{Shared, Poller, u64_mod}
use etar.Io.Log.{IsLogged}
use etar.Reader.{TarParser, Reader, new_reader}
use etar.Reader.Open.{Parts, open_reader}
use etar.Reader.Open.Opening.{KeepsShared, IsOpened, open_reader-IsOpened}
use etar.Reader.Validate.{ValidationReport, Copier, validate, validate_loop}
use etar.Reader.Validate.Report.{validate_fuel}
use etar.Reader.Validate.Verified.{IsReport, validate-IsReport}

module _ {S D A B Z : Type 0} (parts : Parts S D A) (poll : Poller S) (parser : TarParser A B Z)
    (patience rounds : ℕ) (copy : Copier) where
  -- The loop, on what `open` gave; `calls` bounds its calls of `next_entry`.
  unfoldable pub on_opened :
      ℕ → Shared → Option (Result (Reader A) Error) → Option (Result ValidationReport Error)
  on_opened calls sh none = none
  on_opened calls sh (some (err e)) = some (err e)
  on_opened calls sh (some (ok r)) = validate_loop parser patience rounds copy calls r sh 0

  unfoldable pub validate_source : ℕ → S → SecurityLimits → Option (Result ValidationReport Error)
  validate_source calls source limits =
      let o = open_reader parts limits poll patience source in on_opened calls o.shared o.result

  on_opened-ok :
      (calls : ℕ) (sh : Shared) (o : Option (Result (Reader A) Error)) {report : ValidationReport}
      → on_opened calls sh o ≡ some (ok report)
      → (r : Reader A) × (o ≡ some (ok r))
        × (validate_loop parser patience rounds copy calls r sh 0 ≡ some (ok report))
  unfolding on_opened
  on_opened-ok calls sh none h = cc
  on_opened-ok calls sh (some (err e)) h = cc
  on_opened-ok calls sh (some (ok r)) h = (r, refl, h)

  on_opened-fuel :
      (more : ℕ) (limits : SecurityLimits) (sh : Shared) (o : Option (Result (Reader A) Error))
      → limits.max_entries < u64_mod - 1
      → ((r : Reader A) → o ≡ some (ok r) → (a : A) × (r ≡ new_reader a limits))
      → on_opened (limits.max_entries + 1 + more) sh o ≡ on_opened (limits.max_entries + 1) sh o
  unfolding on_opened validate
  on_opened-fuel more limits sh none room new = refl
  on_opened-fuel more limits sh (some (err e)) room new = refl
  on_opened-fuel more limits sh (some (ok r)) room new =
      let (a, same) = new r refl in
      subst
        (λ x.
          on_opened (limits.max_entries + 1 + more) sh (some (ok x))
          ≡ on_opened (limits.max_entries + 1) sh (some (ok x)))
        (sym same) (validate_fuel parser patience rounds copy a limits sh more room)

  module _ {log : S → Bytes} (logged : IsLogged poll log) (keeps : KeepsShared poll) where
    -- A report of `validate` on a source is made by a reader that `open` has put, under the given
    -- limits, on the layers over the decoder that the source's first bytes select. That reader has
    -- handed out as many entries as the report counts, `max_entries` at most, each of them copied with
    -- success; then its parser has said that there is no more, and `verify_end` has succeeded on the
    -- archive that the parser left; and the report's byte counts are those behind that end. The source
    -- keeps the contract of `AsyncRead`, knows its history and nothing of the counts, and the limit is
    -- below the largest 64-bit number.
    pub validate_source-IsReport :
        (calls : ℕ) (source : S) (limits : SecurityLimits) {report : ValidationReport}
        → limits.max_entries < u64_mod - 1
        → validate_source calls source limits ≡ some (ok report)
        → (let o = open_reader parts limits poll patience source in
            (r : Reader A) × IsOpened logged parts limits source o.shared r
            × IsReport parser patience rounds copy r o.shared 0 report)
    unfolding validate_source validate
    validate_source-IsReport calls source limits {report} room h =
        let o = open_reader parts limits poll patience source in
        let (r, opens, loop) = on_opened-ok calls o.shared o.result h in
        let opened = open_reader-IsOpened logged parts limits patience keeps source opens in
        let start =
          sym (ap (λ x. validate_loop parser patience rounds copy calls x o.shared 0) opened.reader)
          ∙ loop in
        (
          r,
          opened,
          subst (λ x. IsReport parser patience rounds copy x o.shared 0 report) (sym opened.reader)
              (validate-IsReport parser patience rounds copy calls opened.archive limits o.shared
                room start),
        )

    -- On a source, too, `validate` needs at most `max_entries + 1` calls of `next_entry`: with more
    -- calls allowed it gives the same. The source keeps the contract of `AsyncRead`, knows its history
    -- and nothing of the counts, and the limit is below the largest 64-bit number.
    pub validate_source_fuel :
        (source : S) (limits : SecurityLimits) (more : ℕ)
        → limits.max_entries < u64_mod - 1
        → validate_source (limits.max_entries + 1 + more) source limits
          ≡ validate_source (limits.max_entries + 1) source limits
    unfolding validate_source
    validate_source_fuel source limits more room =
        let o = open_reader parts limits poll patience source in
        on_opened-fuel more limits o.shared o.result room (λ r opens.
          let opened = open_reader-IsOpened logged parts limits patience keeps source opens in
          (opened.archive, opened.reader))

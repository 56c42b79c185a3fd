-- ===== src/Tests/Transport.antt =====
-- A source that breaks down in the middle of a member's body.
use etar.Prelude.{◌≡◌, ◌≤◌, true, refl, Option, none, some, Result, ok, err, arith, inl, inr, false}
use etar.Errors.{IoError, plain, invalid_data, io, custom}
use etar.Limits.{default}
use etar.Io.{Poll, pending, ready, Shared, Poller, empty_buf}
use etar.Io.Contract.{Memory, poll_memory}
use etar.Open.Meter.{Meter, poll_meter, mark_io, charge_encoded}
use etar.Open.Cap.{Cap, new_cap, poll_cap, settle}
use etar.Open.OpenEntry.{TarEntry}
use etar.Guard.{HeaderGuard, new_guard}
use etar.Guard.Reading.{poll_guard, read_data, data_read}
use etar.Reader.{TarParser, Reader, next_entry}
use etar.Reader.Transport.{IsBroken, next_entry-transport}

abbrev reset : IoError
reset = plain invalid_data "reset"

abbrev fresh : Shared
fresh = record { encoded = 0; decoded = 0; body_failed = false }

abbrev poll_reset : Poller (Unit {0})
poll_reset s sh b = record { state = s; shared = sh; buf = b; poll = ready (err reset) }

abbrev source : Meter (Unit {0})
source = record { inner = tt }

reset-IsBroken : IsBroken poll_reset tt reset
reset-IsBroken = record { fails = λ sh b. refl; quiet = λ sh b. omega arith }

-- A guard behind which 700 bytes of a body are still to come.
in_body : HeaderGuard (Cap (Meter (Unit {0})))
unfolding new_guard
in_body = record (new_guard (new_cap source 5000 10) 1000) { data_remaining = 700 }

abbrev Guarded : Type 0
Guarded = HeaderGuard (Cap (Meter (Unit {0})))

abbrev tell : Poll → Option (Option (Result (TarEntry (Unit {0})) IoError))
tell pending = none
tell (ready (ok u)) = some none
tell (ready (err x)) = some (some (err x))

-- A parser that polls the guard, and tells what came.
abbrev telling : TarParser Guarded (Unit {0}) Memory
telling = record {
  next = λ a sh.
      let t =
        poll_guard (poll_cap (poll_meter poll_reset)) (λ header. some 0) a sh (empty_buf 64) in
      record { archive = t.state; shared = t.shared; result = tell t.poll };
  poll_body = λ s sh buf. record { state = s; shared = sh; buf = buf; poll = ready (ok tt) };
  into_inner = λ a. err reset;
  poll_source = poll_memory;
}

tells : (x : IoError) (p : Poll) → p ≡ ready (err x) → tell p ≡ some (some (err x))
tells x pending h = cc
tells x (ready (ok u)) h = cc
tells x (ready (err y)) h = cc

abbrev reader : Reader Guarded
reader = record { archive = some in_body; entries = true; limits = default; seen = 1; done = false }

nothing-is_decoded : (telling.next in_body fresh).shared.decoded ≤ default.max_total_bytes
unfolding poll_guard read_data data_read poll_cap settle poll_meter charge_encoded mark_io in_body
    new_guard
nothing-is_decoded = omega arith

next_entry-transport_example :
    (next_entry telling 1 1 reader fresh).result ≡ some (err (io (custom invalid_data (io reset))))
unfolding in_body new_guard
next_entry-transport_example =
    next_entry-transport poll_reset (poll_meter poll_reset) (λ header. some 0) telling 1 1 reset
      source in_body fresh (empty_buf 64) reader in_body reset-IsBroken (λ broken. broken)
      (λ x h. tells x _ h) refl (inr (inl (omega arith))) (omega arith) refl refl refl refl
      nothing-is_decoded

-- ===== src/Open/Cap.antt =====
-- `Cap` of src/open.rs: the cap on the decoded bytes in all and on the decompression ratio. Its
-- `total` and `compressed` are the shared `decoded` and `encoded`. `now` is the sum in a release
-- build, which wraps around.
pub mod Total
pub mod Outcome
pub mod Stops
use etar.Prelude.{
  ℕ, ◌+◌, ◌-◌, ◌*◌, ◌≤◌, ◌<◌, ◌≡◌, refl, ◌∙◌, Bool, true, false, ◌&&◌, List, [], ◌∷◌, Bytes, String,
  Option, none, some, length, take, ltb, err, length-append, take-append, append-nil, arith,
  if◌then◌else◌, ◌⊎◌, All, inl, inr, Bool-cases,
}
use etar.Settings.{ratio_floor_bytes}
use etar.Errors.{cap_error}
use etar.Io.{ready, ReadBuf, Shared, Turn, Poller, fetch_add, u64_mod, drain, empty_buf, set_filled}
use etar.Io.Contract.{Hands, IsLawful, KeepsDecoded, filled-difference, stopped-Hands, cut-Hands}

-- `saturating_mul`.
abbrev pub saturating_mul : ℕ → ℕ → ℕ
saturating_mul a b = if ltb (a * b) u64_mod then a * b else u64_mod - 1

pub record Cap (R : Type 0) : Type 0 where
  pub inner : R
  pub max : ℕ
  pub max_ratio : ℕ
  pub failed : Bool

abbrev pub new_cap : {R : Type 0} → R → ℕ → ℕ → Cap R
new_cap inner max max_ratio = record {
  inner = inner;
  max = max;
  max_ratio = max_ratio;
  failed = false;
}

-- The charge, and the cap that the new total breaks, if any.
unfoldable pub breach : Shared → ℕ → ℕ → ℕ → Option String × Shared
breach sh max max_ratio read =
    let now = fetch_add sh.decoded read in
    let input = sh.encoded in
    (
      if ltb max now
          then some "max_total_bytes"
          else if ltb ratio_floor_bytes now
              && ltb 0 input
              && ltb (saturating_mul input max_ratio) now
          then some "max_compression_ratio"
          else none,
      record sh { decoded = now },
    )

-- The end of a poll, by what the breach test says.
unfoldable pub settle : {R : Type 0} → Cap R → ℕ → Turn R → Shared → Option String → Turn (Cap R)
settle c before t sh (some reason) = record {
  state = record c { inner = t.state; failed = true };
  shared = sh;
  buf = set_filled t.buf before;
  poll = ready (err (cap_error reason));
}
settle c before t sh none = record {
  state = record c { inner = t.state };
  shared = sh;
  buf = t.buf;
  poll = t.poll;
}

unfoldable pub poll_cap : {R : Type 0} → Poller R → Poller (Cap R)
unfolding settle
poll_cap poll c sh buf =
    if c.failed
    then record { state = c; shared = sh; buf = buf; poll = ready (err (cap_error "aborted")) }
    else (let before = length buf.filled in
        let t = poll c.inner sh buf in
        let read = length t.buf.filled - before in
        let (reason, charged) = breach t.shared c.max c.max_ratio read in
        if ltb 0 read then settle c before t charged reason else settle c before t t.shared none)

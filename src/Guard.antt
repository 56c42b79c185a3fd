-- ===== src/Guard.antt =====
-- src/guard.rs: `HeaderGuard`, which follows the tar headers in the decoded stream and refuses an
-- extension record that is too large before the parser buffers it. `Header::size` of tokio_tar is
-- the parameter `header_size`: the size field of a header block, if it can be read.
pub mod Pax
pub mod Reading
pub mod Framed
pub mod Filling
pub mod Turned
pub mod Turning
pub mod Transparent
pub mod Bounded
pub mod Inspect
pub mod Keeps
pub mod Erase
pub mod Framing
use etar.Prelude.{
  ℕ, zero, suc, ◌+◌, ◌-◌, ◌*◌, ◌/◌, Bool, true, false, not, ◌&&◌, ◌||◌, Option, none, some, List,
  [], ◌∷◌, ◌++◌, Bytes, length, take, drop, get_or, replicate, all, min, ltb, leb, ◌==◌,
  if◌then◌else◌, Result, ok, err,
}
use etar.Errors.{Error, disallowed_entry_type, limit_exceeded, IoError, custom, invalid_data}
use etar.Io.{Poll, pending, ready, ReadBuf, Shared, Turn, Poller, remaining, empty_buf, put_slice}
use etar.Guard.Pax.{malformed_io, checked_add, parse_pax_size}

pub record HeaderGuard (R : Type 0) : Type 0 where
  pub inner : R
  pub header : Bytes
  pub filled : ℕ
  pub emitted : ℕ
  pub data_remaining : ℕ
  pub next_data : ℕ
  pub next_trailer : Bool
  pub trailer : Bool
  pub max_metadata_bytes : ℕ
  pub pax_body : Option Bytes
  pub pax_remaining : ℕ
  pub pax_size : Option ℕ

unfoldable pub new_guard : {R : Type 0} → R → ℕ → HeaderGuard R
new_guard inner max_metadata_bytes = record {
  inner = inner;
  header = replicate 512 0;
  filled = 0;
  emitted = 0;
  data_remaining = 0;
  next_data = 0;
  next_trailer = false;
  trailer = false;
  max_metadata_bytes = max_metadata_bytes;
  pax_body = none;
  pax_remaining = 0;
  pax_size = none;
}

abbrev pub type_flag : Bytes → ℕ
type_flag header = get_or header 156 0

-- The types of which the metadata limit bounds the size.
abbrev pub is_capped : ℕ → Bool
is_capped kind = kind == b'x' || kind == b'L' || kind == b'K'

-- The types of which the header's own size counts, whatever a PAX body gave.
abbrev pub is_extension : ℕ → Bool
is_extension kind = kind == b'x' || kind == b'L' || kind == b'K'

abbrev pub is_allowed : ℕ → Bool
is_allowed kind =
    kind == 0
    || kind == b'0'
    || kind == b'1'
    || kind == b'2'
    || kind == b'5'
    || kind == b'7'
    || kind == b'x'
    || kind == b'L'
    || kind == b'K'

abbrev pub is_zero_block : Bytes → Bool
is_zero_block = all (λ byte. byte == 0)

-- `checked_add(511)`, rounded down to blocks.
abbrev pub round_up : ℕ → Option ℕ
round_up size = elim (checked_add size 511) [
  | none ↦ none
  | some rounded ↦ some (rounded / 512 * 512)
]

abbrev pub unwrap_or : Option ℕ → ℕ → ℕ
unwrap_or none n = n
unwrap_or (some m) n = m

-- A method that fails keeps what it has written so far.
abbrev pub Outcome : Type 0 → Type 0
Outcome R = HeaderGuard R × Result (Unit {0}) IoError

-- The end of `inspect`, from `checked_add` on.
unfoldable pub set_next_data : {R : Type 0} → HeaderGuard R → Option ℕ → Outcome R
set_next_data g none = (g, err malformed_io)
set_next_data g (some rounded) = (record g { next_data = rounded }, ok tt)

-- A PAX header opens a body.
unfoldable pub open_pax : {R : Type 0} → HeaderGuard R → ℕ → ℕ → HeaderGuard R
open_pax g kind raw_size =
    if kind == b'x' then record g { pax_body = some []; pax_remaining = raw_size } else g

-- `inspect` from the size on: a PAX header opens a body, and any other header but an extension uses
-- up the size that a PAX body gave.
unfoldable pub inspect_size : {R : Type 0} → HeaderGuard R → ℕ → Option ℕ → Outcome R
inspect_size g kind none = (g, err malformed_io)
inspect_size g kind (some raw_size) =
    if is_capped kind && ltb g.max_metadata_bytes raw_size
    then (g, err (custom invalid_data (limit_exceeded "max_metadata_bytes")))
    else (let opened = open_pax g kind raw_size in
        if is_extension kind
        then set_next_data opened (round_up raw_size)
        else set_next_data (record opened { pax_size = none })
            (round_up (unwrap_or opened.pax_size raw_size)))

-- The end of a PAX body: `parse_pax_size(&body)?` on the body taken out.
unfoldable pub close_pax : {R : Type 0} → HeaderGuard R → Result (Option ℕ) IoError → Outcome R
close_pax g (ok size) = (record g { pax_size = size }, ok tt)
close_pax g (err e) = (g, err e)

unfoldable pub take_pax : {R : Type 0} → HeaderGuard R → Option Bytes → Outcome R
take_pax g none = (g, ok tt)
take_pax g (some body) = close_pax (record g { pax_body = none }) (parse_pax_size body)

-- `if self.data_remaining == 0 && let Some(body) = self.pax_body.take()`.
unfoldable pub end_data : {R : Type 0} → HeaderGuard R → Outcome R
end_data g = if g.data_remaining == 0 then take_pax g g.pax_body else (g, ok tt)

-- The PAX body takes what is left of the record's own bytes, and no padding.
unfoldable pub feed_pax : {R : Type 0} → HeaderGuard R → Bytes → Option Bytes → HeaderGuard R
feed_pax g bytes none = g
feed_pax g bytes (some body) =
    let keep = min (length bytes) g.pax_remaining in
    record g { pax_body = some (body ++ take keep bytes); pax_remaining = g.pax_remaining - keep }

module _ (header_size : Bytes → Option ℕ) where
  unfoldable pub inspect : {R : Type 0} → HeaderGuard R → Outcome R
  inspect g =
      if is_zero_block g.header
      then (record g { next_trailer = true }, ok tt)
      else if not (is_allowed (type_flag g.header))
      then (g, err (custom invalid_data disallowed_entry_type))
      else inspect_size g (type_flag g.header) (header_size g.header)

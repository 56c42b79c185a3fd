-- ===== src/Tests/Framing.antt =====
-- `HeaderGuard` of src/guard.rs over archives in memory.
use etar.Prelude.{
  codes, inl, inr, ℕ, List, zero, suc, ◌<◌, All, length-append, ◌≤◌, ◌≡◌, refl, sym, ◌⊎◌, none,
  some, [], ◌∷◌, ◌++◌, Bytes, take, err, replicate, arith, length-take, take-append-drop,
}
use etar.Errors.{custom, invalid_data, disallowed_entry_type}
use etar.Io.{Shared, until_error, remaining, Poller}
use etar.Io.Contract.{Memory, poll_memory, chunk, KeepsDecoded}
use etar.Guard.{new_guard}
use etar.Guard.Reading.{poll_guard}
use etar.Guard.Framing.{Member, bytes_of, check_header, pax_behind, Accepts, IsFed}
use etar.Guard.Framing.Whole.{until_error-accepted, until_error-refused}
use etar.Guard.Framing.Progress.{IsEager}
use etar.Open.Cap.Stops.{IsCut, new_cap-IsCut}
use etar.Guard.Framing.Finishes.{until_error_complete, until_error-fails}
use etar.Limits.{SecurityLimits, default}
use etar.Open.Cap.{new_cap, poll_cap}
use etar.Reader.Open.{layers}
use etar.Reader.Open.Passing.{until_error-layers}
use etar.Tests.Layers.{fresh, file_header, size_300, sizes}

abbrev left_of : Memory → Bytes
left_of m = m.left

memory-IsFed : IsFed (λ m sh. Unit {0}) poll_memory left_of
unfolding poll_memory
memory-IsFed m sh b p =
    let small : chunk m b ≤ remaining b = ground arith in
    record {
      bytes = take (chunk m b) m.left;
      hands = record {
        filled = refl;
        same_size = refl;
        fits = omega (arith, length-take (chunk m b) m.left);
        quiet = λ h. cc;
      };
      fed = sym (take-append-drop (chunk m b) m.left);
      no_error = refl;
      holds = tt;
    }

abbrev file : Member
file = record { header = file_header; body = replicate 512 7 }

file-IsAccepted : Accepts size_300 1000 none (file ∷ []) none
unfolding check_header pax_behind
file-IsAccepted = (refl, refl, refl, (none, refl, refl))

abbrev zero_block : Bytes
zero_block = replicate 512 0

abbrev archive : Bytes → Memory
archive end = record { left = bytes_of (file ∷ []) ++ (end ++ zero_block); step = 200 }

until_error-accepted_example :
    (let d =
        until_error
          (poll_guard poll_memory size_300)
          (new_guard (archive zero_block) 1000)
          fresh
          sizes in
      (d.error ≡ none)
      × ((rest : Bytes) × (bytes_of (file ∷ []) ++ (zero_block ++ zero_block) ≡ d.bytes ++ rest)))
until_error-accepted_example =
    until_error-accepted poll_memory left_of memory-IsFed size_300 1000 (file ∷ []) none zero_block
      zero_block (archive zero_block) fresh sizes file-IsAccepted refl refl refl tt

-- The header of a character device.
abbrev device_header : Bytes
device_header = replicate 156 b'a' ++ b'3' ∷ replicate 355 0

device-is_refused :
    check_header size_300 1000 none device_header ≡ err (custom invalid_data disallowed_entry_type)
unfolding check_header
device-is_refused = refl

until_error-refused_example :
    (let d =
        until_error
          (poll_guard poll_memory size_300)
          (new_guard (archive device_header) 1000)
          fresh
          sizes in
      ((rest : Bytes) × (d.error ≡ none) × (bytes_of (file ∷ []) ≡ d.bytes ++ rest))
      ⊎ ((d.error ≡ some (custom invalid_data disallowed_entry_type))
          × (d.bytes ≡ bytes_of (file ∷ []))))
until_error-refused_example =
    until_error-refused poll_memory left_of memory-IsFed size_300 1000 (file ∷ []) none
      device_header zero_block (custom invalid_data disallowed_entry_type) (archive device_header)
      fresh sizes file-IsAccepted refl device-is_refused refl refl tt

-- The same with pieces of a byte at least.
abbrev poll_some : Poller Memory
poll_some m sh b = poll_memory (record m { step = suc m.step }) sh b

-- A decoder for which no encoded byte has been counted.
abbrev Unread : Memory → Shared → Type 0
Unread m sh = sh.encoded ≡ 0

some-IsFed : IsFed Unread poll_some left_of
unfolding poll_memory
some-IsFed m sh b p =
    let f = memory-IsFed (record m { step = suc m.step }) sh b tt in
    record { bytes = f.bytes; hands = f.hands; fed = f.fed; no_error = f.no_error; holds = p }

some-IsEager : IsEager Unread poll_some left_of
unfolding poll_memory
some-IsEager m sh b p room more =
    let k = chunk (record m { step = suc m.step }) b in
    let some_ : 0 < k = ground (arith, room) in
    record {
      is_ready = refl;
      some_bytes = omega (arith, length-append b.filled (take k m.left), length-take k m.left);
    }

-- More polls than the archive has bytes.
abbrev rooms : List ℕ
rooms = replicate 1536 700

rooms-AllPositive : (n : ℕ) → All (λ k. 0 < k) (replicate n 700)
rooms-AllPositive zero = tt
rooms-AllPositive (suc n) = (omega arith, rooms-AllPositive n)

abbrev short : Bytes → Memory
short end = record { left = bytes_of (file ∷ []) ++ (end ++ []); step = 200 }

until_error_complete_example :
    (let d =
        until_error
          (poll_guard poll_some size_300)
          (new_guard (short zero_block) 1000)
          fresh
          rooms in
      (d.error ≡ none) × (d.bytes ≡ bytes_of (file ∷ []) ++ (zero_block ++ [])))
until_error_complete_example =
    until_error_complete poll_some left_of some-IsFed some-IsEager size_300 1000 (file ∷ []) none
      zero_block [] (short zero_block) fresh rooms file-IsAccepted refl refl refl refl
      (rooms-AllPositive 1536) (omega arith)

until_error-fails_example :
    (let d =
        until_error
          (poll_guard poll_some size_300)
          (new_guard (short device_header) 1000)
          fresh
          rooms in
      (d.error ≡ some (custom invalid_data disallowed_entry_type))
      × (d.bytes ≡ bytes_of (file ∷ [])))
until_error-fails_example =
    until_error-fails poll_some left_of some-IsFed some-IsEager size_300 1000 (file ∷ []) none
      device_header [] (custom invalid_data disallowed_entry_type) (short device_header) fresh rooms
      file-IsAccepted refl device-is_refused refl refl refl (rooms-AllPositive 1536) (omega arith)

some-KeepsDecoded : KeepsDecoded poll_some
unfolding poll_memory
some-KeepsDecoded s sh b = refl

abbrev limits_2000 : SecurityLimits
limits_2000 = record default { max_total_bytes = 2000; max_metadata_bytes = 1000 }

until_error-layers_example :
    (let r =
        until_error
          (poll_guard (poll_cap poll_some) size_300)
          (layers limits_2000 (short zero_block))
          fresh
          rooms in
      (r.error ≡ none) × (r.bytes ≡ bytes_of (file ∷ []) ++ (zero_block ++ [])))
until_error-layers_example =
    until_error-layers poll_some left_of some-IsFed some-IsEager some-KeepsDecoded (λ m sh n p. p)
      size_300 limits_2000 (file ∷ []) none zero_block [] (short zero_block) fresh rooms
      file-IsAccepted refl refl refl (omega arith) (omega arith) (λ m sh p. inr (inl p)) refl refl
      (rooms-AllPositive 1536) (omega arith)

-- Six bytes behind a cap of three.
abbrev overfull : Memory
overfull = record { left = codes "abcdef"; step = 1 }

new_cap-IsCut_example :
    IsCut 3 (until_error (poll_cap poll_some) (new_cap overfull 3 10) fresh (replicate 5 4))
new_cap-IsCut_example =
    new_cap-IsCut poll_some left_of some-IsFed some-IsEager some-KeepsDecoded (λ m sh n p. p) 3 10
      overfull fresh (replicate 5 4) refl refl (omega arith)
      (
        (omega arith, omega arith),
        (
          (omega arith, omega arith),
          (
            (omega arith, omega arith),
            ((omega arith, omega arith), ((omega arith, omega arith), tt)),
          ),
        ),
      )
      (omega arith)

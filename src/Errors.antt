-- ===== src/Errors.antt =====
-- src/error.rs, and the part of `std::io::Error` that the crate looks at: its kind, and the crate's
-- own error where one was boxed into it.
use etar.Prelude.{ℕ, String}

pub data ErrorKind : Type 0 where
  invalid_data : ErrorKind
  other_kind : ℕ → ErrorKind

mutual
  pub data Error : Type 0 where
    absolute_path parent_escape empty_path nul_path : Error
    missing_body non_file_payload invalid_entry_kind body_length_mismatch : Error
    aborted : Error
    limit_exceeded : String → Error
    disallowed_entry_type malformed : Error
    io : IoError → Error

  -- `custom` is `io::Error::new(kind, e)` for an error `e` of the crate; `plain` is any other I/O
  -- error, of the system, of another crate or made from a message.
  pub data IoError : Type 0 where
    custom : ErrorKind → Error → IoError
    plain : ErrorKind → String → IoError

-- `io::Error::kind`.
abbrev pub kind : IoError → ErrorKind
kind (custom k e) = k
kind (plain k s) = k

-- `cap_error` of src/open.rs: a read error standing for a breached byte cap.
abbrev pub cap_error : String → IoError
cap_error which = custom invalid_data (limit_exceeded which)

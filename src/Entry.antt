-- ===== src/Entry.antt =====
-- src/entry.rs: metadata, kinds and the checked path. `Path::components` is the standard library's,
-- as it is on Unix, where a path is a list of bytes and no component is a prefix.
pub mod Safe
pub mod Joined
use etar.Prelude.{
  ℕ, Bool, true, false, ◌&&◌, List, [], ◌∷◌, ◌++◌, Bytes, Result, ok, err, ◌>>=◌, ◌>>◌, fail_if,
  any, ◌==◌, if◌then◌else◌,
}
use etar.Errors.{Error, absolute_path, parent_escape, empty_path, nul_path}

pub data Kind : Type 0 where
  file dir : Kind
  symlink : Bytes → Kind
  hardlink : Bytes → Kind

-- `matches!(kind, Kind::File)`.
abbrev pub is_file : Kind → Bool
is_file file = true
is_file dir = false
is_file (symlink target) = false
is_file (hardlink target) = false

pub record Meta : Type 0 where
  pub mode : ℕ
  pub uid : ℕ
  pub gid : ℕ
  pub mtime_unix_secs : ℕ
  pub kind : Kind

abbrev pub new_meta : ℕ → ℕ → ℕ → ℕ → Kind → Meta
new_meta mode uid gid mtime kind = record {
  mode = mode;
  uid = uid;
  gid = gid;
  mtime_unix_secs = mtime;
  kind = kind;
}

-- `std::path::Component`.
pub data Component : Type 0 where
  prefix : Bytes → Component
  root_dir cur_dir parent_dir : Component
  normal : Bytes → Component

-- The pieces between slashes, empty ones included. The first argument is the piece so far.
unfoldable pub pieces : Bytes → Bytes → List Bytes
pieces cur [] = cur ∷ []
pieces cur (c ∷ s) = elim (c == b'/') [
  | true ↦ cur ∷ pieces [] s
  | false ↦ pieces (cur ++ c ∷ []) s
]

abbrev pub is_dot : Bytes → Bool
is_dot [] = false
is_dot (c ∷ []) = c == b'.'
is_dot (c ∷ d ∷ s) = false

abbrev pub is_dot_dot : Bytes → Bool
is_dot_dot [] = false
is_dot_dot (c ∷ []) = false
is_dot_dot (c ∷ d ∷ []) = c == b'.' && d == b'.'
is_dot_dot (c ∷ d ∷ e ∷ s) = false

-- A piece behind the first: empty pieces and `.` vanish.
unfoldable pub later_component : Bytes → List Component
later_component [] = []
later_component (c ∷ s) =
    if is_dot (c ∷ s)
    then []
    else if is_dot_dot (c ∷ s)
    then parent_dir ∷ []
    else normal (c ∷ s) ∷ []

unfoldable pub later_components : List Bytes → List Component
later_components [] = []
later_components (p ∷ ps) = later_component p ++ later_components ps

-- The first piece: empty if the path starts with a slash, and a `.` in front is kept.
unfoldable pub components_of : List Bytes → List Component
components_of [] = []
components_of ([] ∷ []) = []
components_of ([] ∷ (p ∷ ps)) = root_dir ∷ later_components (p ∷ ps)
components_of ((c ∷ s) ∷ ps) =
    if is_dot (c ∷ s)
    then cur_dir ∷ later_components ps
    else later_component (c ∷ s) ++ later_components ps

unfoldable pub components : Bytes → List Component
components path = components_of (pieces [] path)

unfoldable pub reject_unsafe : Component → Result (Unit {0}) Error
reject_unsafe (prefix p) = err absolute_path
reject_unsafe root_dir = err absolute_path
reject_unsafe parent_dir = err parent_escape
reject_unsafe cur_dir = ok tt
reject_unsafe (normal s) = ok tt

-- The loop over the components.
unfoldable pub reject_all : List Component → Result (Unit {0}) Error
reject_all [] = ok tt
reject_all (c ∷ cs) = do reject_unsafe c; reject_all cs

abbrev pub is_empty : Bytes → Bool
is_empty [] = true
is_empty (c ∷ s) = false

unfoldable pub validate : Bytes → Result (Unit {0}) Error
validate path = do
  fail_if (is_empty path) empty_path
  fail_if (any (λ c. c == 0) path) nul_path
  reject_all (components path)

-- The tuple struct `SafePath(PathBuf)`.
pub record SafePath : Type 0 where
  pub path : Bytes

unfoldable pub new_safe_path : Bytes → Result SafePath Error
new_safe_path path = do validate path; ok (record { path = path })

abbrev pub as_bytes : SafePath → Bytes
as_bytes p = p.path

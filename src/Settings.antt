-- ===== src/Settings.antt =====
-- src/settings.rs: the compile-time settings.
use etar.Prelude.{ℕ, ◌*◌, [], ◌∷◌, Bytes}

abbrev pub peek_len : ℕ
peek_len = 4

abbrev pub zstd_magic : Bytes
zstd_magic = 0x28 ∷ 0xB5 ∷ 0x2F ∷ 0xFD ∷ []

abbrev pub buf_cap : ℕ
buf_cap = 64 * 1024

abbrev pub default_max_entries : ℕ
default_max_entries = 2_000_000

abbrev pub default_max_total_bytes : ℕ
default_max_total_bytes = 32 * 1024 * 1024 * 1024

abbrev pub default_max_entry_bytes : ℕ
default_max_entry_bytes = 8 * 1024 * 1024 * 1024

abbrev pub default_max_path_len : ℕ
default_max_path_len = 4096

abbrev pub default_max_metadata_bytes : ℕ
default_max_metadata_bytes = 1024 * 1024

abbrev pub default_max_ratio : ℕ
default_max_ratio = 200

abbrev pub ratio_floor_bytes : ℕ
ratio_floor_bytes = 8 * 1024 * 1024

-- ===== src/Limits.antt =====
-- src/limits.rs: the caps, their defaults and the builder's setters.
use etar.Prelude.{ℕ, Bool, true}
use etar.Settings.{
  default_max_entries, default_max_total_bytes, default_max_entry_bytes, default_max_path_len,
  default_max_metadata_bytes, default_max_ratio,
}

pub record SecurityLimits : Type 0 where
  pub max_entries : ℕ
  pub max_total_bytes : ℕ
  pub max_entry_bytes : ℕ
  pub max_path_len : ℕ
  pub max_metadata_bytes : ℕ
  pub max_compression_ratio : ℕ
  pub allow_symlinks : Bool
  pub allow_hardlinks : Bool

abbrev pub default : SecurityLimits
default = record {
  max_entries = default_max_entries;
  max_total_bytes = default_max_total_bytes;
  max_entry_bytes = default_max_entry_bytes;
  max_path_len = default_max_path_len;
  max_metadata_bytes = default_max_metadata_bytes;
  max_compression_ratio = default_max_ratio;
  allow_symlinks = true;
  allow_hardlinks = true;
}

unfoldable pub with_max_entries : SecurityLimits → ℕ → SecurityLimits
with_max_entries l max = record l { max_entries = max }

unfoldable pub with_max_total_bytes : SecurityLimits → ℕ → SecurityLimits
with_max_total_bytes l max = record l { max_total_bytes = max }

unfoldable pub with_max_entry_bytes : SecurityLimits → ℕ → SecurityLimits
with_max_entry_bytes l max = record l { max_entry_bytes = max }

unfoldable pub with_max_path_len : SecurityLimits → ℕ → SecurityLimits
with_max_path_len l max = record l { max_path_len = max }

unfoldable pub with_max_metadata_bytes : SecurityLimits → ℕ → SecurityLimits
with_max_metadata_bytes l max = record l { max_metadata_bytes = max }

unfoldable pub with_max_compression_ratio : SecurityLimits → ℕ → SecurityLimits
with_max_compression_ratio l max = record l { max_compression_ratio = max }

unfoldable pub with_symlinks : SecurityLimits → Bool → SecurityLimits
with_symlinks l allow = record l { allow_symlinks = allow }

unfoldable pub with_hardlinks : SecurityLimits → Bool → SecurityLimits
with_hardlinks l allow = record l { allow_hardlinks = allow }

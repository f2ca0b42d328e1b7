-- ===== src/ServerVersion.antt =====
-- src/include/server_version.h: the version of a ClickHouse server. Versions are not negative.
use pg_clickhouse.Prelude.{ℕ, Bool, ◌&&◌, ◌||◌, ◌==◌, ltb, leb}

pub record ServerVersion : Type 0 where
  pub major : ℕ
  pub minor : ℕ
  pub patch : ℕ

-- `(ch_server_version){ 0 }`, for a version that is not known.
abbrev pub unknown : ServerVersion
unknown = record { major = 0; minor = 0; patch = 0 }

unfoldable pub version_ge : ServerVersion → ℕ → ℕ → Bool
version_ge v major minor = ltb major v.major || v.major == major && leb minor v.minor

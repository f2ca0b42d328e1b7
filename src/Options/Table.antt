-- ===== src/Options/Table.antt =====
-- The table of valid options in src/option.c: `ch_options`, `InitChFdwOptions`, `is_valid_option`
-- and `is_ch_option`.
use pg_clickhouse.Prelude.{
  ℕ, Bytes, codes, Bool, true, false, ◌||◌, ◌&&◌, List, [], ◌∷◌, ◌++◌, map, str_eq, if◌then◌else◌,
  ◌==◌,
}

-- The catalogs whose OIDs tell in which objects an option may appear.
pub data Catalog : Type 0 where
  foreign_server user_mapping foreign_table attribute other : Catalog

unfoldable pub same_catalog : Catalog → Catalog → Bool
same_catalog foreign_server foreign_server = true
same_catalog user_mapping user_mapping = true
same_catalog foreign_table foreign_table = true
same_catalog attribute attribute = true
same_catalog other other = true
same_catalog _ _ = false

pub record FdwOption : Type 0 where
  pub keyword : Bytes
  pub optcontext : Catalog
  pub is_ch_opt : Bool
  pub dispchar : Bytes

-- The table `ch_options`; its `dispchar` fields are empty.
abbrev pub ch_options : List Bytes
ch_options =
    codes "host"
    ∷ codes "secure"
    ∷ codes "min_tls_version"
    ∷ codes "port"
    ∷ codes "dbname"
    ∷ codes "user"
    ∷ codes "password"
    ∷ codes "compression"
    ∷ []

abbrev entry : Bytes → Catalog → Bool → FdwOption
entry k c b = record { keyword = k; optcontext = c; is_ch_opt = b; dispchar = [] }

abbrev pub non_ch_options : List FdwOption
non_ch_options =
    entry (codes "database") foreign_table false
    ∷ entry (codes "table_name") foreign_table false
    ∷ entry (codes "engine") foreign_table false
    ∷ entry (codes "driver") foreign_server false
    ∷ entry (codes "encoding_check") foreign_server true
    ∷ entry (codes "settings") foreign_server false
    ∷ entry (codes "settings") foreign_table false
    ∷ entry (codes "aggregatefunction") attribute false
    ∷ entry (codes "simpleaggregatefunction") attribute false
    ∷ entry (codes "column_name") attribute false
    ∷ []

-- `strchr(s, c) != NULL` for a byte that is not NUL.
unfoldable pub has_byte : ℕ → Bytes → Bool
has_byte c [] = false
has_byte c (b ∷ s) = b == c || has_byte c s

-- A copied entry: users and secrets belong to user mappings, all else to servers.
unfoldable pub copy_option : Bytes → FdwOption
unfolding has_byte
copy_option k = record {
  keyword = k;
  optcontext =
      if str_eq k (codes "user") || str_eq k (codes "password") || has_byte b'*' []
      then user_mapping
      else foreign_server;
  is_ch_opt = true;
  dispchar = [];
}

-- `popt->is_ch_opt = true` behind the `memcpy` marks the first of the copied entries.
unfoldable pub mark_first : List FdwOption → List FdwOption
mark_first [] = []
mark_first (o ∷ os) = record o { is_ch_opt = true } ∷ os

unfoldable pub fdw_options : List FdwOption
unfolding copy_option mark_first
fdw_options = map copy_option ch_options ++ mark_first non_ch_options

unfoldable pub any_valid : Bytes → Catalog → List FdwOption → Bool
unfolding same_catalog
any_valid keyword context [] = false
any_valid keyword context (o ∷ os) =
    same_catalog context o.optcontext && str_eq o.keyword keyword || any_valid keyword context os

unfoldable pub is_valid_option : Bytes → Catalog → Bool
unfolding any_valid fdw_options
is_valid_option keyword context = any_valid keyword context fdw_options

unfoldable pub any_ch : Bytes → List FdwOption → Bool
any_ch keyword [] = false
any_ch keyword (o ∷ os) = o.is_ch_opt && str_eq o.keyword keyword || any_ch keyword os

unfoldable pub is_ch_option : Bytes → Bool
unfolding any_ch fdw_options
is_ch_option keyword = any_ch keyword fdw_options

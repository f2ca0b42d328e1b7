-- ===== src/Settings.antt =====
-- src/settings.c: the settings sent with a query, laid over one another by name.
pub mod Lookup
pub mod Merge
pub mod Supported
pub mod Query
pub mod Session
pub mod Values
pub mod Validated
use pg_clickhouse.Prelude.{
  ℕ, suc, zero, Bytes, String, codes, str_eq, List, [], ◌∷◌, ◌++◌, Option, none, some, Bool, true,
  false, if◌then◌else◌, Result, ok, err, ◌>>=◌,
}
use pg_clickhouse.Nodes.{DefElem, make}
use pg_clickhouse.Postgres.{Postgres}
use pg_clickhouse.KvList.{KvList, KvIter, new_kv_iter, kv_iter_next}
use pg_clickhouse.Options.Scan.{ParseError}
use pg_clickhouse.Options.Parse.{parse_options}

-- The table `defaults`, as `default_settings` lists it.
abbrev pub default_settings : List DefElem
default_settings =
    make (codes "join_use_nulls") (codes "1")
    ∷ make (codes "group_by_use_nulls") (codes "1")
    ∷ make (codes "final") (codes "1")
    ∷ make (codes "transform_null_in") (codes "0")
    ∷ []

module _ (pg : Postgres) where
  -- `chfdw_settings_option`: the first option of that name.
  unfoldable pub settings_option : List DefElem → Option Bytes
  settings_option [] = none
  settings_option (d ∷ options) =
      if str_eq d.defname (codes "settings")
      then some (pg.def_get_string d)
      else settings_option options

-- One round of `overlay`: the first setting of the same name is replaced, else `d` is appended.
unfoldable pub put : List DefElem → DefElem → List DefElem
put [] d = d ∷ []
put (b ∷ base) d = if str_eq b.defname d.defname then d ∷ base else b ∷ put base d

unfoldable pub overlay : List DefElem → List DefElem → List DefElem
unfolding put
overlay base [] = base
overlay base (d ∷ settings) = overlay (put base d) settings

-- `chfdw_table_settings`, from the options of the foreign table.
unfoldable pub table_settings : Postgres → List DefElem → Result ParseError (List DefElem)
unfolding settings_option overlay parse_options
table_settings pg options = elim (settings_option pg options) [
  | none ↦ ok []
  | some opt ↦ (do ds ← parse_options opt; ok (overlay [] ds))
]

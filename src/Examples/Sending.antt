-- ===== src/Examples/Sending.antt =====
-- The settings of src/settings.c and the lists of src/kv_list.c.
use pg_clickhouse.Prelude.{
  Bytes, codes, true, ◌≡◌, ◌↔◌, refl, List, [], ◌∷◌, ◌++◌, str_eq, Option, none, some, arith,
  is_space, ok,
}
use pg_clickhouse.Nodes.{DefElem, make}
use pg_clickhouse.ServerVersion.{ServerVersion, version_ge}
use pg_clickhouse.KvList.{
  KvList, kv_pair_palloc, new_kv_list_from_pg_list, new_kv_iter, kv_iter_next,
}
use pg_clickhouse.KvList.Laws.{elems, Yields, Yields-new_kv_list}
use pg_clickhouse.Options.Parse.{parse_options}
use pg_clickhouse.Options.Scan.{read_name, read_value}
use pg_clickhouse.Options.Table.{foreign_table}
use pg_clickhouse.Options.Validate.{validator}
use pg_clickhouse.Settings.{settings_option, table_settings}
use pg_clickhouse.Settings.Lookup.{last_of, Distinct}
use pg_clickhouse.Settings.Merge.{merge_settings}
use pg_clickhouse.Settings.Supported.{
  drop_unsupported, drop_unsupported_lem, sent, sendable, answer, withheld, any_known,
  known_settings, find_known,
}
use pg_clickhouse.Settings.Supported.Versions.{IsKnownTo}
use pg_clickhouse.Settings.Session.{session_settings}
use pg_clickhouse.Settings.Query.{query_settings, server_pairs, ranked}
use pg_clickhouse.Settings.Values.{query_settings_total}
use pg_clickhouse.Settings.Validated.{validator-table_settings}
use pg_clickhouse.Examples.Backend.{backend, ample, one_encoding}

abbrev final_zero : DefElem
final_zero = make (codes "final") (codes "0")

abbrev pub two : List (Bytes × Bytes)
two = (codes "final", codes "0") ∷ (codes "x", []) ∷ []

abbrev pub packed : KvList
packed = record { count = 2; content = codes "final" ++ 0 ∷ b'0' ∷ 0 ∷ b'x' ∷ 0 ∷ 0 ∷ [] }

pub packs : new_kv_list_from_pg_list true ample (elems two) kv_pair_palloc ≡ ok packed
unfolding new_kv_list_from_pg_list
packs = refl

Yields-new_kv_list_example : Yields (new_kv_iter (some packed)) two
Yields-new_kv_list_example = Yields-new_kv_list true ample two kv_pair_palloc (omega arith) packs

abbrev left : List DefElem
left = make (codes "a") (codes "1") ∷ make (codes "b") (codes "2") ∷ []

abbrev right : List DefElem
right = make (codes "b") (codes "3") ∷ []

conflict :
    merge_settings backend left right
    ≡ make (codes "a") (codes "1") ∷ record { defname = codes "b"; arg = none } ∷ []
unfolding merge_settings str_eq
conflict = refl

abbrev v25 : Option ServerVersion
v25 = some (record { major = 25; minor = 3; patch = 1 })

abbrev mixed : List DefElem
mixed =
    make (codes "enable_qbit_type") (codes "1")
    ∷ make (codes "use_skip_indexes") (codes "1")
    ∷ final_zero
    ∷ []

drops :
    (drop_unsupported v25 mixed).kept
    ≡ make (codes "use_skip_indexes") (codes "1") ∷ final_zero ∷ []
unfolding drop_unsupported version_ge known_settings find_known str_eq
drops = refl

drop_unsupported_lem_example :
    ((drop_unsupported v25 mixed).kept ≡ sent v25 mixed)
    × ((drop_unsupported v25 mixed).warnings ≡ withheld v25 mixed)
    × ((drop_unsupported v25 mixed).asked.have_version ≡ any_known mixed)
    × ((k : Bytes) → (sendable v25 k ≡ true) ↔ IsKnownTo (answer v25) k known_settings)
drop_unsupported_lem_example = drop_unsupported_lem v25 mixed

abbrev table_options : List DefElem
table_options = make (codes "settings") (codes "final 0") ∷ []

valid_table : validator backend one_encoding foreign_table table_options ≡ ok tt
unfolding validator parse_options is_space read_name read_value str_eq
valid_table = refl

validator-table_settings_example :
    (ds : List DefElem) × (table_settings backend table_options ≡ ok ds) × Distinct ds
validator-table_settings_example =
    validator-table_settings backend one_encoding foreign_table table_options valid_table

served : server_pairs (settings_option backend table_options) ≡ ok (final_zero ∷ [])
unfolding server_pairs settings_option parse_options is_space read_name read_value str_eq
served = refl

no_session : session_settings none ≡ ok []
unfolding session_settings new_kv_iter kv_iter_next
no_session = refl

query_settings_total_example :
    (kv : KvList) × (ds : List DefElem) × (query_settings backend true ample none table_options left
        v25
      ≡ ok kv)
    × (new_kv_list_from_pg_list true ample ds kv_pair_palloc ≡ ok kv)
    × Distinct ds
    × ((k : Bytes) → last_of k ds none ≡ ranked v25 (final_zero ∷ []) left [] k)
query_settings_total_example =
    query_settings_total backend true ample none table_options left (final_zero ∷ []) [] v25
      (λ n. refl) served no_session

-- ===== src/Examples/Requesting.antt =====
-- What is put in a request: URL parameters, quoted parameters, the identifiers of an engine,
-- and what the planner is told of vector indexes.
use pg_clickhouse.Prelude.{
  ◌↔◌, ◌+◌, ◌≤◌, ◌<◌, Bytes, codes, ◌≡◌, ◌≢◌, refl, List, [], ◌∷◌, ◌++◌, none, some, arith, length,
  err,
}
use pg_clickhouse.Nodes.{DefElem, make}
use pg_clickhouse.Binary.Params.{param_value, param_cap, value_of_literal-param_value}
use pg_clickhouse.Literals.Lexer.{value_of_literal}
use pg_clickhouse.Http.Request.{Setting, parameter, split, url_parameters}
use pg_clickhouse.Http.Request.Overrides.{split-parameter_iff}
use pg_clickhouse.Identifiers.{
  ch_quote_ident, invalid_identifier, RemoteTable, plain, collapsing_merge_tree,
  apply_custom_table_options,
}
use pg_clickhouse.Identifiers.Quoted.{IsSign, IsSign-apply_custom_table_options}
use pg_clickhouse.VectorMeta.{Row, Key, Ask}
use pg_clickhouse.Examples.Backend.{backend}

value_of_literal-param_value_example :
    (value_of_literal (param_value (some (codes "it's"))) ≡ some (codes "it's"))
    × (param_value (some (codes "it's")) ≢ param_value none)
    × (length (param_value (some (codes "it's"))) + 1 ≤ param_cap (codes "it's"))
value_of_literal-param_value_example = value_of_literal-param_value (codes "it's")

abbrev user : List Setting
user = (codes "final", codes "1") ∷ (codes "date_time_output_format", codes "simple") ∷ []

abbrev pinned : List Setting
pinned = (codes "date_time_output_format", codes "iso") ∷ []

pinned_wins :
    url_parameters (codes "7") user pinned
    ≡ codes "query_id=7" ∷ codes "final=1" ∷ codes "date_time_output_format=iso" ∷ []
unfolding url_parameters
pinned_wins = refl

-- A stand-in for the library's quoting.
abbrev in_quotes : Bytes → Bytes
in_quotes name = b'"' ∷ (name ++ b'"' ∷ [])

abbrev no_engine : RemoteTable
no_engine = record { table_engine = plain; sign_field = [] }

abbrev collapsing : RemoteTable
collapsing = record { table_engine = collapsing_merge_tree; sign_field = codes "\"a\\\"b\"" }

abbrev engine : List DefElem
engine = make (codes "engine") (codes "CollapsingMergeTree(\"a\\\"b\")") ∷ []

refuses_two : ch_quote_ident in_quotes (codes "\"a\"b\"") ≡ err invalid_identifier
unfolding ch_quote_ident
refuses_two = refl

IsSign-apply_custom_table_options_example :
    (length collapsing.sign_field < 128) × IsSign in_quotes collapsing.sign_field
IsSign-apply_custom_table_options_example =
    IsSign-apply_custom_table_options in_quotes backend engine no_engine collapsing refl
      (unfold apply_custom_table_options in refl) refl

abbrev table_key : Key
table_key = record { relid = 7; userid = 1 }

abbrev one_index : List Row
one_index =
    record {
      row_name = codes "idx";
      row_column = codes "v";
      row_metric = codes "L2Distance";
      row_cap = some 100;
    }
    ∷ []

-- A first query, and one 59 seconds later, which would fail.
abbrev first_ask : Ask
first_ask = record { asked_key = table_key; now = 1000000; ttl = 60; answer = some one_index }

abbrev second_ask : Ask
second_ask = record { asked_key = table_key; now = 60000000; ttl = 60; answer = none }

split-parameter_iff_example :
    (split (parameter (codes "final", codes "1")) ≡ (codes "final", codes "1"))
    ↔ (length (codes "final") + 1 + length (codes "1") < 512)
split-parameter_iff_example =
    split-parameter_iff (codes "final", codes "1")
      (ground arith, (ground arith, (ground arith, (ground arith, (ground arith, tt)))))
      (omega arith)

-- ===== src/Settings/Supported/Table.antt =====
-- `known_settings` of src/settings.c.
use pg_clickhouse.Prelude.{
  ℕ, Bytes, List, [], ◌∷◌, Option, none, some, codes, str_eq, if◌then◌else◌,
}

-- The version that added a setting.
pub record KnownSetting : Type 0 where
  pub name : Bytes
  pub min_major : ℕ
  pub min_minor : ℕ

abbrev known : Bytes → ℕ → ℕ → KnownSetting
known name major minor = record { name = name; min_major = major; min_minor = minor }

unfoldable pub known_settings : List KnownSetting
known_settings =
    known (codes "hnsw_candidate_list_size_for_search") 24 10
    ∷ known (codes "max_limit_for_vector_search_queries") 25 5
    ∷ known (codes "vector_search_filter_strategy") 25 5
    ∷ known (codes "vector_search_index_fetch_multiplier") 25 8
    ∷ known (codes "vector_search_postfilter_multiplier") 25 5
    ∷ known (codes "vector_search_with_rescoring") 25 8
    ∷ known (codes "vector_search_use_quantized_codes") 26 7
    ∷ known (codes "query_plan_try_use_vector_search") 25 1
    ∷ known (codes "enable_vector_similarity_index") 25 7
    ∷ known (codes "allow_experimental_vector_similarity_index") 24 8
    ∷ known (codes "materialize_skip_indexes_on_insert") 24 6
    ∷ known (codes "exclude_materialize_skip_indexes_on_insert") 25 10
    ∷ known (codes "use_skip_indexes") 23 3
    ∷ known (codes "use_skip_indexes_if_final") 23 3
    ∷ known (codes "use_skip_indexes_for_top_k") 25 12
    ∷ known (codes "enable_qbit_type") 26 1
    ∷ known (codes "allow_experimental_qbit_type") 25 10
    ∷ known (codes "optimize_qbit_distance_function_reads") 25 10
    ∷ known (codes "enable_quantized_codec") 26 8
    ∷ []

unfoldable pub find_known : Bytes → List KnownSetting → Option KnownSetting
find_known k [] = none
find_known k (s ∷ rest) = if str_eq s.name k then some s else find_known k rest

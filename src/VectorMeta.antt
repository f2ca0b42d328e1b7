-- ===== src/VectorMeta.antt =====
-- src/vector_meta.c: the vector indexes of remote tables, and the cache of them. The rows of the
-- query for them, and the times at which it is asked, come from outside; times are in microseconds.
pub mod Fresh
use pg_clickhouse.Prelude.{
  ℕ, ◌+◌, ◌*◌, ◌/◌, ◌-◌, ◌^◌, min, Bytes, codes, Bool, true, false, not, ◌&&◌, List, [], ◌∷◌, ◌++◌,
  Option, none, some, ◌==◌, ltb, leb, if◌then◌else◌, str_eq,
}

-- `chfdw_vector_metric`, as far as indexes have one.
pub data Metric : Type 0 where
  no_metric l2 cosine dot : Metric

-- `chfdw_vector_metric_from_ch`.
unfoldable pub metric_from_ch : Bytes → Metric
unfolding str_eq
metric_from_ch name =
    if str_eq name (codes "L2Distance")
    then l2
    else if str_eq name (codes "cosineDistance")
    then cosine
    else if str_eq name (codes "dotProduct")
    then dot
    else no_metric

-- `VectorIndexInfo`.
pub record VectorIndex : Type 0 where
  pub index_name : Bytes
  pub column : Bytes
  pub metric : Metric

-- `VectorTableMeta`; no cap is -1.
pub record TableMeta : Type 0 where
  pub indexes : List VectorIndex
  pub limit_cap : Option ℕ

-- One row of the query; the cap is what `strtoll` makes of its text, the digits of an unsigned
-- number, if that is not empty.
pub record Row : Type 0 where
  pub row_name : Bytes
  pub row_column : Bytes
  pub row_metric : Bytes
  pub row_cap : Option ℕ

unfoldable pub or_cap : Option ℕ → Option ℕ → Option ℕ
or_cap none before = before
or_cap (some cap) before = some cap

unfoldable pub add_row : Row → Metric → TableMeta → TableMeta
unfolding or_cap
add_row row no_metric meta = meta
add_row row m meta = record {
  indexes =
      meta.indexes
      ++ record { index_name = row.row_name; column = row.row_column; metric = m } ∷ [];
  limit_cap = or_cap row.row_cap meta.limit_cap;
}

-- The loop of `fetch_meta`.
unfoldable pub read_rows : List Row → TableMeta → TableMeta
unfolding add_row metric_from_ch
read_rows [] meta = meta
read_rows (row ∷ rows) meta = read_rows rows (add_row row (metric_from_ch row.row_metric) meta)

unfoldable pub fetch_meta : List Row → TableMeta
unfolding read_rows
fetch_meta rows = read_rows rows (record { indexes = []; limit_cap = none })

-- `VectorMetaKey`: the table and the user.
pub record Key : Type 0 where
  pub relid : ℕ
  pub userid : ℕ

-- `VectorMetaEntry`.
pub record CachedMeta : Type 0 where
  pub key : Key
  pub meta : TableMeta
  pub fetched_at : ℕ

unfoldable pub same_key : Key → Key → Bool
same_key a b = a.relid == b.relid && a.userid == b.userid

-- `TimestampDifferenceExceeds`, for milliseconds.
unfoldable pub exceeds : ℕ → ℕ → ℕ → Bool
exceeds start stop ms = leb (start + ms * 1000) stop

unfoldable pub find_meta : Key → List CachedMeta → Option CachedMeta
unfolding same_key
find_meta k [] = none
find_meta k (e ∷ cache) =
    let later = find_meta k cache in if same_key e.key k then some e else later

unfoldable pub evict_stale : Key → ℕ → ℕ → List CachedMeta → List CachedMeta
unfolding same_key exceeds
evict_stale k now ttl [] = []
evict_stale k now ttl (e ∷ cache) =
    let rest = evict_stale k now ttl cache in
    if not (same_key e.key k) && exceeds e.fetched_at now ttl then rest else e ∷ rest

unfoldable pub remove_meta : Key → List CachedMeta → List CachedMeta
unfolding same_key
remove_meta k [] = []
remove_meta k (e ∷ cache) =
    let rest = remove_meta k cache in if same_key e.key k then rest else e ∷ rest

-- A call of `chfdw_vector_table_meta`: the key, the time, the time to live in seconds, and the
-- answer of the query, `none` if it fails.
pub record Ask : Type 0 where
  pub asked_key : Key
  pub now : ℕ
  pub ttl : ℕ
  pub answer : Option (List Row)

-- The time to live in milliseconds, capped.
unfoldable pub ttl_ms : ℕ → ℕ
ttl_ms ttl = min ttl ((2 ^ 31 - 1) / 1000) * 1000

unfoldable pub is_fresh : Ask → CachedMeta → Bool
unfolding exceeds ttl_ms
is_fresh a e = ltb 0 a.ttl && not (exceeds e.fetched_at a.now (ttl_ms a.ttl))

unfoldable pub store_meta :
    Ask → List CachedMeta → Option (List Row) → Option TableMeta × List CachedMeta
unfolding remove_meta fetch_meta
store_meta a cache none = (none, remove_meta a.asked_key cache)
store_meta a cache (some rows) = (
  some (fetch_meta rows),
  record { key = a.asked_key; meta = fetch_meta rows; fetched_at = a.now }
      ∷ remove_meta a.asked_key cache,
)

unfoldable pub fetch_again : Ask → List CachedMeta → Option TableMeta × List CachedMeta
unfolding evict_stale ttl_ms store_meta
fetch_again a cache = store_meta a (evict_stale a.asked_key a.now (ttl_ms a.ttl) cache) a.answer

unfoldable pub by_entry :
    Ask → List CachedMeta → Option CachedMeta → Option TableMeta × List CachedMeta
unfolding is_fresh fetch_again
by_entry a cache none = fetch_again a cache
by_entry a cache (some e) =
    let again = fetch_again a cache in if is_fresh a e then (some e.meta, cache) else again

-- `chfdw_vector_table_meta`.
unfoldable pub vector_table_meta : Ask → List CachedMeta → Option TableMeta × List CachedMeta
unfolding by_entry find_meta
vector_table_meta a cache = by_entry a cache (find_meta a.asked_key cache)

-- ===== src/VectorMeta/Fresh.antt =====
-- How old the metadata are that the cache of src/vector_meta.c hands out.
use pg_clickhouse.Prelude.{ℕ, ◌+◌, ◌*◌, ◌<◌, List, [], ◌∷◌, Option, some, ◌≡◌, ◌⊎◌, All}
use pg_clickhouse.VectorMeta.{
  TableMeta, Row, fetch_meta, Key, CachedMeta, Ask, ttl_ms, vector_table_meta,
}

-- A session: the queries for metadata that were asked of the cache, with the cache that they leave.
pub data Session : List Ask → List CachedMeta → Type 0 where
  fresh_session : Session [] []
  invalidated : {asks : List Ask} {cache : List CachedMeta} → Session asks cache → Session asks []
  asked :
      {asks : List Ask} {cache : List CachedMeta} (a : Ask)
      → Session asks cache
      → Session (a ∷ asks) (vector_table_meta a cache).1

-- A query of the list answered the key at the time with rows that amount to the metadata.
pub data Answered (k : Key) (time : ℕ) (meta : TableMeta) : List Ask → Type 0 where
  latest :
      (a : Ask) (asks : List Ask) (rows : List Row)
      → a.asked_key ≡ k
      → a.now ≡ time
      → a.answer ≡ some rows
      → fetch_meta rows ≡ meta
      → Answered k time meta (a ∷ asks)
  earlier :
      (a : Ask) (asks : List Ask) → Answered k time meta asks → Answered k time meta (a ∷ asks)

abbrev IsAnswered : List Ask → CachedMeta → Type 0
IsAnswered asks e = Answered e.key e.fetched_at e.meta asks

-- What a query hands out is what some query fetched, no longer ago than the time to live.
abbrev Handed : List Ask → Ask → Option TableMeta → Type 0
Handed asks a r =
    (meta : TableMeta)
    → r ≡ some meta
    → (time : ℕ) × Answered a.asked_key time meta asks
      × ((time ≡ a.now) ⊎ (a.now < time + ttl_ms a.ttl * 1000))

-- A call keeps what the cache knows, and hands out no older metadata.
abbrev Good : List Ask → Ask → Option TableMeta × List CachedMeta → Type 0
Good asks a r = Handed (a ∷ asks) a r.0 × All (IsAnswered (a ∷ asks)) r.1

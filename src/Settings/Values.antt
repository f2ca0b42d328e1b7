-- ===== src/Settings/Values.antt =====
-- Every setting that src/settings.c sends has a value: a NULL argument, by which
-- `chfdw_merge_settings` marks a conflict, never reaches the packing of src/kv_list.c.
use pg_clickhouse.Prelude.{
  ℕ, zero, suc, Bytes, Bool, true, false, ◌≡◌, ◌≢◌, refl, subst, List, [], ◌∷◌, ◌++◌, Option, none,
  some, arith, str_eq, inl, inr, Bool-cases, Option-cases, Result-cases, ok, err, >>=-eq-ok,
  ok-injective, All, All-append, ◌+◌, length,
}
use pg_clickhouse.Nodes.{DefElem, make}
use pg_clickhouse.Postgres.{Postgres}
use pg_clickhouse.ServerVersion.{ServerVersion}
use pg_clickhouse.KvList.{
  Allocator, KvList, palloc, list_length, offsetof_data, kv_pair_palloc, KvIter, new_kv_iter,
  kv_iter_next, pair_bytes, measure, fill, allocate_list, select_allocator,
  new_kv_list_from_pg_list,
}
use pg_clickhouse.Options.Parse.{parse_options}
use pg_clickhouse.Options.Parse.Names.{IsPair, parse_options-IsPair}
use pg_clickhouse.Settings.{default_settings, settings_option, overlay, put}
use pg_clickhouse.Settings.Lookup.{last_of, Distinct}
use pg_clickhouse.Settings.Supported.{drop_unsupported_lem, sendable, sent}
use pg_clickhouse.Settings.Session.{WalkError, past_end, walk, session_settings}
use pg_clickhouse.Settings.Query.{
  QueryError, Query, query_list, query_list-ranked, ranked, server_pairs, query_settings,
  add_server, add_table, add_tables, or_syntax, or_walking, or_packing,
}

abbrev pub HasValue : DefElem → Type 0
HasValue d = d.arg ≢ none

pub put-HasValue :
    (base : List DefElem) (d : DefElem) → All HasValue base → HasValue d → All HasValue (put base d)
unfolding put
put-HasValue [] d h hd = (hd, tt)
put-HasValue (b ∷ base) d (hb, h) hd = elim (Bool-cases (str_eq b.defname d.defname)) [
  | inl e ↦ rw e (hd, h)
  | inr e ↦ rw e (hb, put-HasValue base d h hd)
]

pub overlay-HasValue :
    (base ds : List DefElem) → All HasValue base → All HasValue ds → All HasValue (overlay base ds)
unfolding overlay
overlay-HasValue base [] h hs = h
overlay-HasValue base (d ∷ ds) h (hd, hs) =
    overlay-HasValue (put base d) ds (put-HasValue base d h hd) hs

add_table-HasValue :
    (base : List DefElem) (d : DefElem) (o : Option Bytes)
    → d.arg ≡ o
    → All HasValue base
    → All HasValue (add_table base d o)
unfolding add_table overlay
add_table-HasValue base d none e h = h
add_table-HasValue base d (some v) e h = put-HasValue base d h (λ p. cc)

add_tables-HasValue :
    (base tables : List DefElem) → All HasValue base → All HasValue (add_tables base tables)
unfolding add_tables
add_tables-HasValue base [] h = h
add_tables-HasValue base (d ∷ tables) h =
    add_tables-HasValue (add_table base d d.arg) tables (add_table-HasValue base d d.arg refl h)

pairs-HasValue : (ds : List DefElem) → All IsPair ds → All HasValue ds
pairs-HasValue [] h = tt
pairs-HasValue (d ∷ ds) (hd, h) = (hd.valued, pairs-HasValue ds h)

or_syntax-HasValue :
    (s : Bytes) {ds : List DefElem} → or_syntax (parse_options s) ≡ ok ds → All HasValue ds
unfolding or_syntax
or_syntax-HasValue s {ds} h = elim (Result-cases (parse_options s)) [
  | inl (got, e) ↦
      let same : got ≡ ds = ok-injective QueryError got ds (rw (e, or_syntax) at h) in
      rw (← same) (pairs-HasValue got (parse_options-IsPair s e))
  | inr (x, e) ↦ let bad : or_syntax (err x) ≡ ok ds = rw e at h in cc
]

add_server-HasValue :
    (base : List DefElem) (o : Option Bytes) {ds : List DefElem}
    → All HasValue base
    → add_server base o ≡ ok ds
    → All HasValue ds
unfolding add_server
add_server-HasValue base none {ds} h e =
    let same : base ≡ ds = ok-injective QueryError base ds e in rw (← same) h
add_server-HasValue base (some s) {ds} h e =
    let (got, p, q) = >>=-eq-ok (or_syntax (parse_options s)) _ e in
    rw (← ok-injective QueryError (overlay base got) ds q)
      (overlay-HasValue base got h (or_syntax-HasValue s p))

walk-HasValue :
    (f : ℕ) (it : KvIter) (settings : List DefElem) {ds : List DefElem}
    → All HasValue settings
    → walk f it settings ≡ ok ds
    → All HasValue ds
unfolding walk
walk-HasValue zero it settings h e = cc
walk-HasValue (suc f) it settings {ds} h e = elim (Option-cases (kv_iter_next it)) [
  | inl p ↦ let bad : err past_end ≡ ok ds = rw (p, walk) at e in cc
  | inr ((true, it'), p) ↦
      walk-HasValue f it' (settings ++ make it'.name it'.value ∷ [])
        (All-append HasValue settings _ h (ground arith, tt)) (rw (p, walk) at e)
  | inr ((false, it'), p) ↦ rw (← ok-injective WalkError settings ds (rw (p, walk) at e)) h
]

or_walking-HasValue :
    (session : Option KvList) {ds : List DefElem}
    → or_walking (session_settings session) ≡ ok ds
    → All HasValue ds
unfolding or_walking session_settings
or_walking-HasValue session {ds} h = elim (Result-cases (session_settings session)) [
  | inl (got, e) ↦
      let same : got ≡ ds = ok-injective QueryError got ds (rw (e, or_walking) at h) in
      rw (← same) (walk-HasValue (suc (new_kv_iter session).togo) (new_kv_iter session) [] tt e)
  | inr (x, e) ↦ let bad : or_walking (err x) ≡ ok ds = rw e at h in cc
]

sent-HasValue :
    (method : Option ServerVersion) (ds : List DefElem)
    → All HasValue ds
    → All HasValue (sent method ds)
unfolding sent
sent-HasValue method [] h = tt
sent-HasValue method (d ∷ ds) (hd, h) = elim (Bool-cases (sendable method d.defname)) [
  | inl e ↦ rw e (hd, sent-HasValue method ds h)
  | inr e ↦ rw e (sent-HasValue method ds h)
]

default-HasValue : All HasValue default_settings
default-HasValue = (λ p. cc, (λ p. cc, (λ p. cc, (λ p. cc, tt))))

measure-HasValue :
    (n : ℕ) (ds : List DefElem) → All HasValue ds → (size : ℕ) × (measure n ds ≡ ok size)
unfolding measure pair_bytes
measure-HasValue n [] h = (n, refl)
measure-HasValue n (d ∷ ds) (hd, h) = elim (Option-cases d.arg) [
  | inl e ↦ absurd (hd e)
  | inr (v, e) ↦ rw e (measure-HasValue (n + (2 + length d.defname + length v)) ds h)
]

fill-HasValue :
    (content : Bytes) (ds : List DefElem)
    → All HasValue ds
    → (filled : Bytes) × (fill content ds ≡ ok filled)
unfolding fill pair_bytes
fill-HasValue content [] h = (content, refl)
fill-HasValue content (d ∷ ds) (hd, h) = elim (Option-cases d.arg) [
  | inl e ↦ absurd (hd e)
  | inr (v, e) ↦ rw e (fill-HasValue (content ++ (d.defname ++ 0 ∷ []) ++ (v ++ 0 ∷ [])) ds h)
]

module _ (pg16 : Bool) (has_room : Allocator → ℕ → Bool)
    (room : (n : ℕ) → has_room palloc n ≡ true) where
  pack-HasValue :
      (ds : List DefElem)
      → All HasValue ds
      → (kv : KvList) × (new_kv_list_from_pg_list pg16 has_room ds kv_pair_palloc ≡ ok kv)
  unfolding new_kv_list_from_pg_list allocate_list select_allocator
  pack-HasValue ds h =
      let (size, m) = measure-HasValue 0 ds h in
      let (content, f) = fill-HasValue [] ds h in
      (record { count = list_length ds; content = content }, rw (m, room (offsetof_data + size), f))

module _ (pg : Postgres) where
  -- Every setting of a query has a value, whatever the tables, the server and the session say.
  pub query_list-HasValue :
      (session : Option KvList) (options tables : List DefElem) (method : Option ServerVersion)
      {q : Query pg}
      → query_list pg session options tables method ≡ ok q
      → All HasValue q.settings
  unfolding query_list
  query_list-HasValue session options tables method {q} h =
      let (served, hs, h1) =
        >>=-eq-ok (add_server default_settings (settings_option pg options)) _ h in
      let (mine, hm, h2) = >>=-eq-ok (or_walking (session_settings session)) _ h1 in
      let all = overlay (add_tables served tables) mine in
      let fine =
        overlay-HasValue (add_tables served tables) mine
          (add_tables-HasValue served tables
            (add_server-HasValue default_settings (settings_option pg options) default-HasValue hs))
          (or_walking-HasValue session hm) in
      subst (λ (r : Query pg). All HasValue r.settings) (ok-injective QueryError _ q h2)
        (rw (drop_unsupported_lem method all).0 (sent-HasValue method all fine))

  -- Given that the server's settings parse, that the session's can be walked and that `palloc` finds
  -- room, a query gets its packed settings. They set no name twice, and for every name the value is
  -- that of the last source that sets it, and none if the server's version does not know the name.
  pub query_settings_total :
      (pg16 : Bool) (has_room : Allocator → ℕ → Bool) (session : Option KvList)
      (options tables server mine : List DefElem) (method : Option ServerVersion)
      → ((n : ℕ) → has_room palloc n ≡ true)
      → server_pairs (settings_option pg options) ≡ ok server
      → session_settings session ≡ ok mine
      → (kv : KvList) × (ds : List DefElem) × (query_settings pg pg16 has_room session options
            tables method
          ≡ ok kv)
        × (new_kv_list_from_pg_list pg16 has_room ds kv_pair_palloc ≡ ok kv)
        × Distinct ds
        × ((k : Bytes) → last_of k ds none ≡ ranked method server tables mine k)
  unfolding query_settings or_packing
  query_settings_total pg16 has_room session options tables server mine method room hs hm =
      let (q, e, distinct, rank) =
        query_list-ranked pg session options tables server mine method hs hm in
      let (kv, p) =
        pack-HasValue pg16 has_room room q.settings
          (query_list-HasValue session options tables method e) in
      (kv, q.settings, rw (e, p), p, distinct, rank)

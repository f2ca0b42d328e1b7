-- ===== src/Settings/Query.antt =====
-- `chfdw_query_settings` and `chfdw_session_settings` of src/settings.c: the settings of a query.
use pg_clickhouse.Prelude.{
  ℕ, Bytes, Bool, ◌≡◌, refl, ap, ◌∙◌, sym, subst, List, [], ◌∷◌, ◌++◌, Option, none, some, str_eq,
  str_eq-false, if◌then◌else◌, Result, ok, err, ◌>>=◌,
}
use pg_clickhouse.Nodes.{DefElem}
use pg_clickhouse.Postgres.{Postgres}
use pg_clickhouse.ServerVersion.{ServerVersion}
use pg_clickhouse.KvList.{Allocator, KvError, KvList, kv_pair_palloc, new_kv_list_from_pg_list}
use pg_clickhouse.Options.Scan.{ParseError}
use pg_clickhouse.Options.Parse.{parse_options}
use pg_clickhouse.Settings.{default_settings, settings_option, overlay, put}
use pg_clickhouse.Settings.Lookup.{
  value_of, last_of, last_of-value_of, value_of-overlay, Distinct, Distinct-overlay,
}
use pg_clickhouse.Settings.Supported.{
  KnownSetting, drop_unsupported, drop_unsupported_lem, sendable,
}
use pg_clickhouse.Settings.Supported.Names.{value_of-sent, Distinct-sent}
use pg_clickhouse.Settings.Session.{WalkError, session_settings}

pub data QueryError : Type 0 where
  syntax : ParseError → QueryError
  walking : WalkError → QueryError
  packing : KvError → QueryError

unfoldable pub or_syntax : Result ParseError (List DefElem) → Result QueryError (List DefElem)
or_syntax (ok ds) = ok ds
or_syntax (err e) = err (syntax e)

unfoldable pub or_walking : Result WalkError (List DefElem) → Result QueryError (List DefElem)
or_walking (ok ds) = ok ds
or_walking (err e) = err (walking e)

unfoldable pub or_packing : Result KvError KvList → Result QueryError KvList
or_packing (ok kv) = ok kv
or_packing (err e) = err (packing e)

-- `if (server) settings = overlay(settings, chfdw_parse_options(server))`.
unfoldable pub add_server : List DefElem → Option Bytes → Result QueryError (List DefElem)
unfolding or_syntax overlay
add_server settings none = ok settings
add_server settings (some server) = do
  ds ← or_syntax (parse_options server)
  ok (overlay settings ds)

-- The first loop over the tables' settings: those that have a value.
unfoldable pub add_table : List DefElem → DefElem → Option Bytes → List DefElem
unfolding overlay
add_table settings d none = settings
add_table settings d (some v) = overlay settings (d ∷ [])

unfoldable pub add_tables : List DefElem → List DefElem → List DefElem
unfolding add_table
add_tables settings [] = settings
add_tables settings (d ∷ tables) = add_tables (add_table settings d d.arg) tables

module _ (pg : Postgres) where
  -- The text of the first setting of a name.
  unfoldable pub text_for : Bytes → List DefElem → Option Bytes
  text_for k [] = none
  text_for k (d ∷ ds) = if str_eq d.defname k then some (pg.def_get_string d) else text_for k ds

  -- The second loop: a notice for each setting that has none, with the value used in its place.
  unfoldable pub notices : List DefElem → List DefElem → List (Bytes × Option Bytes)
  unfolding text_for
  notices settings [] = []
  notices settings (d ∷ tables) =
      let rest = notices settings tables in
      elim d.arg [ none ↦ (d.defname, text_for d.defname settings) ∷ rest | some v ↦ rest ]

  pub record Query : Type 0 where
    pub settings : List DefElem
    pub warned : List (Bytes × KnownSetting)
    pub noticed : List (Bytes × Option Bytes)

  -- Everything but the packing: `session` is the parsed GUC, `options` are the server's, `method`
  -- is what the connection's driver answers.
  unfoldable pub query_list :
      Option KvList → List DefElem → List DefElem → Option ServerVersion → Result QueryError Query
  unfolding settings_option add_server add_tables or_walking overlay notices
  query_list session options tables method = do
    served ← add_server default_settings (settings_option pg options)
    mine ← or_walking (session_settings session)
    let dropped = drop_unsupported method (overlay (add_tables served tables) mine)
    ok (record {
      settings = dropped.kept;
      warned = dropped.warnings;
      noticed = notices dropped.kept tables;
    })

  module _ (pg16 : Bool) (has_room : Allocator → ℕ → Bool) where
    unfoldable pub query_settings :
        Option KvList
        → List DefElem
        → List DefElem
        → Option ServerVersion
        → Result QueryError KvList
    unfolding query_list or_packing
    query_settings session options tables method = do
      q ← query_list session options tables method
      or_packing (new_kv_list_from_pg_list pg16 has_room q.settings kv_pair_palloc)

    -- `chfdw_session_settings`, for queries that belong to no table.
    unfoldable pub session_list : Option KvList → Result QueryError KvList
    unfolding or_walking or_packing overlay
    session_list session = do
      mine ← or_walking (session_settings session)
      or_packing
          (new_kv_list_from_pg_list pg16 has_room (overlay default_settings mine) kv_pair_palloc)

-- The tables' settings that have a value.
unfoldable pub with_value : DefElem → Option Bytes → List DefElem
with_value d none = []
with_value d (some v) = d ∷ []

unfoldable pub present : List DefElem → List DefElem
unfolding with_value
present [] = []
present (d ∷ ds) = with_value d d.arg ++ present ds

overlay-append : (base a b : List DefElem) → overlay base (a ++ b) ≡ overlay (overlay base a) b
unfolding overlay
overlay-append base [] b = refl
overlay-append base (d ∷ a) b = overlay-append (put base d) a b

add_table-overlay :
    (base : List DefElem) (d : DefElem) (o : Option Bytes)
    → add_table base d o ≡ overlay base (with_value d o)
unfolding add_table with_value overlay
add_table-overlay base d none = refl
add_table-overlay base d (some v) = refl

add_tables-overlay :
    (base tables : List DefElem) → add_tables base tables ≡ overlay base (present tables)
unfolding add_tables present
add_tables-overlay base [] = unfold overlay in refl
add_tables-overlay base (d ∷ tables) =
    add_tables-overlay (add_table base d d.arg) tables
    ∙ ap (λ b. overlay b (present tables)) (add_table-overlay base d d.arg)
    ∙ sym (overlay-append base (with_value d d.arg) (present tables))

-- The settings of the server, as its option spells them; none if it has no such option.
unfoldable pub server_pairs : Option Bytes → Result QueryError (List DefElem)
unfolding or_syntax
server_pairs none = ok []
server_pairs (some text) = or_syntax (parse_options text)

add_server-overlay :
    (base : List DefElem) (o : Option Bytes)
    → add_server base o ≡ (server_pairs o >>= λ ds. ok (overlay base ds))
unfolding add_server server_pairs
add_server-overlay base none = unfold overlay in refl
add_server-overlay base (some text) = refl

default_settings-Distinct : Distinct default_settings
unfolding str_eq
default_settings-Distinct = (
  (str_eq-false _ _ refl, (str_eq-false _ _ refl, (str_eq-false _ _ refl, tt))),
  ((str_eq-false _ _ refl, (str_eq-false _ _ refl, tt)), ((str_eq-false _ _ refl, tt), (tt, tt))),
)

-- The rank of the sources for one setting: the session's value, or else the tables', the server's,
-- the built-in default; and nothing at all if the server's version does not know the setting.
unfoldable pub ranked :
    Option ServerVersion
    → List DefElem
    → List DefElem
    → List DefElem
    → Bytes
    → Option (Option Bytes)
ranked method server tables session k =
    if sendable method k
    then last_of k session
        (last_of k (present tables) (last_of k server (last_of k default_settings none)))
    else none

module _ (pg : Postgres) where
  -- Whenever the server's settings parse and the session's can be walked, a query gets its settings.
  -- No name is set twice, and for every name the value is that of the last source that sets it:
  -- built-in defaults, the server's option, the tables' settings that agree, the session's settings.
  -- Those that the server's version does not know are left out.
  pub query_list-ranked :
      (session : Option KvList) (options tables server mine : List DefElem)
      (method : Option ServerVersion)
      → server_pairs (settings_option pg options) ≡ ok server
      → session_settings session ≡ ok mine
      → (q : Query pg) × (query_list pg session options tables method ≡ ok q)
        × Distinct q.settings
        × ((k : Bytes) → last_of k q.settings none ≡ ranked method server tables mine k)
  unfolding query_list or_walking ranked
  query_list-ranked session options tables server mine method hs hm = (
    q,
    rw (add_server-overlay, hs, hm),
    distinct,
    λ k. last_of-value_of k q.settings distinct ∙ valued k,
  )
    where
      served : List DefElem
      served = overlay default_settings server

      all : List DefElem
      all = overlay (add_tables served tables) mine

      q : Query pg
      q = record {
        settings = (drop_unsupported method all).kept;
        warned = (drop_unsupported method all).warnings;
        noticed = notices pg (drop_unsupported method all).kept tables;
      }

      all-Distinct : Distinct all
      all-Distinct = Distinct-overlay (add_tables served tables) mine (
          subst Distinct (sym (add_tables-overlay served tables)) (
            Distinct-overlay served (present tables)
              (Distinct-overlay default_settings server default_settings-Distinct)))

      distinct : Distinct (drop_unsupported method all).kept
      distinct =
          subst Distinct (sym (drop_unsupported_lem method all).0)
            (Distinct-sent method all all-Distinct)

      valued :
          (k : Bytes)
          → value_of k (drop_unsupported method all).kept ≡ (
              if sendable method k
              then last_of k mine
                  (last_of k (present tables) (last_of k server (last_of k default_settings none)))
              else none)
      valued k =
          ap (value_of k) (drop_unsupported_lem method all).0
          ∙ value_of-sent method k all
          ∙ ap (λ o. if sendable method k then o else none)
              (value_of-overlay k (add_tables served tables) mine
                ∙ ap (last_of k mine) (
                    ap (value_of k) (add_tables-overlay served tables)
                    ∙ value_of-overlay k served (present tables)
                    ∙ ap (last_of k (present tables)) (
                        value_of-overlay k default_settings server
                        ∙ ap (last_of k server)
                            (sym (last_of-value_of k default_settings default_settings-Distinct)))))

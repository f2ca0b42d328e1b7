-- ===== src/Binary/QuerySettings.antt =====
-- `ch_binary_query_settings` of src/binary/binary.c: the settings of a query and those of the driver.
use pg_clickhouse.Prelude.{
  ℕ, suc, ◌+◌, ◌≡◌, refl, ap, ◌∙◌, Bytes, codes, Bool, true, false, List, [], ◌∷◌, ◌++◌, map,
  Option, none, some, str_eq, if◌then◌else◌, length, length-append, Result, ok, ◌>>=◌, All, arith,
}
use pg_clickhouse.Nodes.{DefElem}
use pg_clickhouse.Options.Extract.{or_default}
use pg_clickhouse.ServerVersion.{ServerVersion, version_ge}
use pg_clickhouse.KvList.{Allocator, KvList, new_kv_list_from_pg_list}
use pg_clickhouse.KvList.Laws.{IsCPair, elems, new_kv_list-pack}
use pg_clickhouse.Settings.Session.{
  WalkError, session_settings as kv_pairs, session_settings-new_kv_list,
}

-- `chc_query_setting`.
pub record QuerySetting : Type 0 where
  pub name : Bytes
  pub value : Bytes
  pub important : Bool

unfoldable pub user_setting : DefElem → QuerySetting
unfolding or_default
user_setting d = record { name = d.defname; value = or_default [] d.arg; important = true }

abbrev pub json_as_string : QuerySetting
json_as_string = record {
  name = codes "output_format_native_write_json_as_string";
  value = codes "1";
  important = true;
}

abbrev pub session_timezone : Bytes → QuerySetting
session_timezone zone = record { name = codes "session_timezone"; value = zone; important = true }

unfoldable pub one_if : Bool → ℕ
one_if true = 1
one_if false = 0

unfoldable pub only_if : Bool → QuerySetting → List QuerySetting
only_if true s = s ∷ []
only_if false s = []

abbrev pub setting_count : Option KvList → ℕ
setting_count none = 0
setting_count (some kv) = kv.count

-- The number of settings that the array has room for, and those that are written to it. `zone` is
-- what `pgch_session_timezone` answers.
unfoldable pub binary_query_settings :
    ServerVersion → Bytes → Option KvList → Result WalkError (ℕ × List QuerySetting)
unfolding version_ge one_if only_if user_setting
binary_query_settings version zone settings = do
  pairs ← kv_pairs settings
  ok (
    setting_count settings + one_if (version_ge version 24 10) + one_if (version_ge version 23 6),
    map user_setting pairs
        ++ (only_if (version_ge version 24 10) json_as_string
            ++ only_if (version_ge version 23 6) (session_timezone zone)),
  )

-- The value that a server uses of a name: the last one.
unfoldable pub last_value : Bytes → List QuerySetting → Option Bytes → Option Bytes
last_value k [] before = before
last_value k (s ∷ settings) before =
    last_value k settings (if str_eq s.name k then some s.value else before)

last_value-append :
    (k : Bytes) (a b : List QuerySetting) (before : Option Bytes)
    → last_value k (a ++ b) before ≡ last_value k b (last_value k a before)
unfolding last_value
last_value-append k [] b before = refl
last_value-append k (s ∷ a) b before =
    last_value-append k a b (if str_eq s.name k then some s.value else before)

length-only_if : (b : Bool) (s : QuerySetting) → length (only_if b s) ≡ one_if b
unfolding only_if one_if
length-only_if true s = refl
length-only_if false s = refl

length-map-elems : (ps : List (Bytes × Bytes)) → length (map user_setting (elems ps)) ≡ length ps
length-map-elems [] = refl
length-map-elems (p ∷ ps) = ap suc (length-map-elems ps)

-- The driver's settings, behind any others.
abbrev driver_settings : ServerVersion → Bytes → List QuerySetting
driver_settings version zone =
    only_if (version_ge version 24 10) json_as_string
    ++ only_if (version_ge version 23 6) (session_timezone zone)

driver_settings-zone :
    (version : ServerVersion) (zone : Bytes) (before : Option Bytes)
    → last_value (codes "session_timezone") (driver_settings version zone) before
      ≡ (if version_ge version 23 6 then some zone else before)
unfolding last_value only_if str_eq
driver_settings-zone version zone before =
    by_version (version_ge version 24 10) (version_ge version 23 6)
  where
    by_version :
        (json zoned : Bool)
        → last_value
            (codes "session_timezone")
            (only_if json json_as_string ++ only_if zoned (session_timezone zone))
            before
          ≡ (if zoned then some zone else before)
    by_version true true = refl
    by_version true false = refl
    by_version false true = refl
    by_version false false = refl

sum_lengths :
    (ps : List (Bytes × Bytes)) (version : ServerVersion) (zone : Bytes)
    → length ps + one_if (version_ge version 24 10) + one_if (version_ge version 23 6)
      ≡ length (map user_setting (elems ps) ++ driver_settings version zone)
sum_lengths ps version zone =
    let a = length-append (map user_setting (elems ps)) (driver_settings version zone) in
    let b =
      length-append (only_if (version_ge version 24 10) json_as_string)
        (only_if (version_ge version 23 6) (session_timezone zone)) in
    let c = length-only_if (version_ge version 24 10) json_as_string in
    let d = length-only_if (version_ge version 23 6) (session_timezone zone) in
    let e = length-map-elems ps in omega arith

-- The settings of a packed list fit exactly in the array that is allocated for them, whatever the
-- server's version; and from version 23.6 on the server uses the session's time zone, whatever time
-- zone the list sets.
pub binary_query_settings-packed :
    (pg16 : Bool) (has_room : Allocator → ℕ → Bool) (ps : List (Bytes × Bytes)) (a : ℕ)
    (version : ServerVersion) (zone : Bytes) {kv : KvList}
    → All IsCPair ps
    → new_kv_list_from_pg_list pg16 has_room (elems ps) a ≡ ok kv
    → (l : List QuerySetting) × (binary_query_settings version zone (some kv) ≡ ok (length l, l))
      × (last_value (codes "session_timezone") l none ≡ (
          if version_ge version 23 6
          then some zone
          else last_value (codes "session_timezone") (map user_setting (elems ps)) none))
binary_query_settings-packed pg16 has_room ps a version zone {kv} h packed =
    let pairs = session_settings-new_kv_list pg16 has_room ps a h packed in
    let same = new_kv_list-pack pg16 has_room ps a packed in
    let l : List QuerySetting = map user_setting (elems ps) ++ driver_settings version zone in
    let room : setting_count (some kv)
          + one_if (version_ge version 24 10)
          + one_if (version_ge version 23 6)
        ≡ length l =
      ap
        (λ (k : KvList).
          setting_count (some k)
          + one_if (version_ge version 24 10)
          + one_if (version_ge version 23 6))
        same
      ∙ sum_lengths ps version zone in
    (
      l,
      unfold binary_query_settings in rw (pairs, room) refl,
      last_value-append (codes "session_timezone") (map user_setting (elems ps))
            (driver_settings version zone) none
          ∙ driver_settings-zone version zone _,
    )

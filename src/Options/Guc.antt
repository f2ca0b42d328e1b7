-- ===== src/Options/Guc.antt =====
-- The session settings in src/option.c: the check and assign hooks of the GUC
-- `pg_clickhouse.session_settings`, and `chfdw_get_session_settings`.
pub mod Session
use pg_clickhouse.Prelude.{
  Bytes, Bool, List, [], ◌∷◌, Option, none, some, ℕ, Result, ok, err, ◌>>=◌,
}
use pg_clickhouse.Nodes.{DefElem}
use pg_clickhouse.KvList.{Allocator, KvError, KvList, kv_pair_guc_malloc, new_kv_list_from_pg_list}
use pg_clickhouse.Options.Scan.{ParseError}
use pg_clickhouse.Options.Parse.{parse_options}

pub data GucError : Type 0 where
  syntax : ParseError → GucError
  packing : KvError → GucError

unfoldable pub or_syntax : Result ParseError (List DefElem) → Result GucError (List DefElem)
or_syntax (ok ds) = ok ds
or_syntax (err e) = err (syntax e)

unfoldable pub or_packing : Result KvError KvList → Result GucError KvList
or_packing (ok kv) = ok kv
or_packing (err e) = err (packing e)

-- The hook's answer, and `*extra` if it accepts.
pub data Check : Type 0 where
  refuse : Check
  accept : Option KvList → Check

module _ (pg16 : Bool) (has_room : Allocator → ℕ → Bool) where
  -- The list is not empty: it is packed.
  unfoldable pub check_list : List DefElem → Result GucError Check
  unfolding or_packing
  check_list [] = ok refuse
  check_list (d ∷ ds) = do
    settings ← or_packing (new_kv_list_from_pg_list pg16 has_room (d ∷ ds) kv_pair_guc_malloc)
    ok (accept (some settings))

  unfoldable pub check_settings_guc : Option Bytes → Result GucError Check
  unfolding or_syntax check_list
  check_settings_guc none = ok (accept none)
  check_settings_guc (some []) = ok (accept none)
  check_settings_guc (some (c ∷ s)) = do list ← or_syntax (parse_options (c ∷ s)); check_list list

-- The assign hook: the global that `chfdw_get_session_settings` returns becomes `extra`. A refused
-- value is not assigned, so the global stays.
unfoldable pub assign_settings : Option KvList → Check → Option KvList
assign_settings session refuse = session
assign_settings session (accept extra) = extra

-- ===== src/Settings/Session.antt =====
-- `session_settings` of src/settings.c: the packed list of the session's settings as a list.
use pg_clickhouse.Prelude.{
  ℕ, zero, suc, Bytes, ◌≡◌, ap, ◌∙◌, sym, List, [], ◌∷◌, ◌++◌, append-nil, append_assoc, Option,
  none, some, length, All, if◌then◌else◌, Result, ok, err,
}
use pg_clickhouse.Nodes.{DefElem, make}
use pg_clickhouse.KvList.{
  Allocator, KvList, KvIter, new_kv_list_from_pg_list, new_kv_iter, kv_iter_next,
}
use pg_clickhouse.KvList.Laws.{
  IsCPair, elems, Yields, done, item, Yields-new_kv_list, new_kv_list-pack,
}
use pg_clickhouse.Prelude.{Bool}

pub data WalkError : Type 0 where
  past_end out_of_fuel : WalkError

-- `while (kv_iter_next(&it)) settings = lappend(...)`.
unfoldable pub walk : ℕ → KvIter → List DefElem → Result WalkError (List DefElem)
walk zero it settings = err out_of_fuel
walk (suc fuel) it settings = elim (kv_iter_next it) [
  | none ↦ err past_end
  | some (more, it') ↦
      let rest = walk fuel it' (settings ++ make it'.name it'.value ∷ []) in
      if more then rest else ok settings
]

-- Each round takes a pair, so one more round than there are pairs is enough.
unfoldable pub session_settings : Option KvList → Result WalkError (List DefElem)
unfolding walk
session_settings ns = let it = new_kv_iter ns in walk (suc it.togo) it []

walk-Yields :
    {it : KvIter} {ps : List (Bytes × Bytes)} (settings : List DefElem)
    → Yields it ps
    → walk (suc (length ps)) it settings ≡ ok (settings ++ elems ps)
unfolding walk
walk-Yields settings (done it e) = rw (walk, e) (ap ok (sym (append-nil settings)))
walk-Yields settings (item it it' p ps e n v y) =
    rw (walk, e)
      (walk-Yields (settings ++ make it'.name it'.value ∷ []) y
        ∙ ap ok (append_assoc settings _ (elems ps) ∙ λ i. settings ++ make (n i) (v i) ∷ elems ps))

-- Pairs of C strings that were packed are read back as they were, in order: the walk reads nothing
-- outside the block and does not run out of fuel.
pub session_settings-new_kv_list :
    (pg16 : Bool) (has_room : Allocator → ℕ → Bool) (ps : List (Bytes × Bytes)) (a : ℕ)
    {kv : KvList}
    → All IsCPair ps
    → new_kv_list_from_pg_list pg16 has_room (elems ps) a ≡ ok kv
    → session_settings (some kv) ≡ ok (elems ps)
unfolding session_settings new_kv_iter
session_settings-new_kv_list pg16 has_room ps a {kv} h e =
    let counted : kv.count ≡ length ps =
      ap (λ (k : KvList). k.count) (new_kv_list-pack pg16 has_room ps a e) in
    ap (λ n. walk (suc n) (new_kv_iter (some kv)) []) counted
    ∙ walk-Yields [] (Yields-new_kv_list pg16 has_room ps a h e)

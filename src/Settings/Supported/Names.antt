-- ===== src/Settings/Supported/Names.antt =====
-- The names and values that `drop_unsupported` of src/settings.c leaves.
use pg_clickhouse.Prelude.{
  Bytes, ◌≡◌, ap, List, [], ◌∷◌, Option, none, arith, str_eq, str_eq_iff, if◌then◌else◌, inl, inr,
  Bool-cases,
}
use pg_clickhouse.Nodes.{DefElem}
use pg_clickhouse.ServerVersion.{ServerVersion}
use pg_clickhouse.Settings.Lookup.{value_of, Fresh, Distinct}
use pg_clickhouse.Settings.Supported.{sendable, sent}

-- Dropping settings leaves the values of the others.
pub value_of-sent :
    (method : Option ServerVersion) (k : Bytes) (ds : List DefElem)
    → value_of k (sent method ds) ≡ (if sendable method k then value_of k ds else none)
unfolding value_of sent
value_of-sent method k [] = ground arith
value_of-sent method k (d ∷ ds) = elim (Bool-cases (str_eq d.defname k)) [
  | inl e ↦
      let same : d.defname ≡ k = (str_eq_iff d.defname k).0 e in
      let sends : sendable method d.defname ≡ sendable method k = ap (sendable method) same in
      ground (arith, e, sends, value_of-sent method k ds)
  | inr e ↦ ground (arith, e, value_of-sent method k ds)
]

Fresh-sent :
    (method : Option ServerVersion) (k : Bytes) (ds : List DefElem)
    → Fresh k ds
    → Fresh k (sent method ds)
unfolding sent
Fresh-sent method k [] f = tt
Fresh-sent method k (d ∷ ds) (h, f) = elim (Bool-cases (sendable method d.defname)) [
  | inl e ↦ rw e (h, Fresh-sent method k ds f)
  | inr e ↦ rw e (Fresh-sent method k ds f)
]

-- Dropping settings keeps the names distinct.
pub Distinct-sent :
    (method : Option ServerVersion) (ds : List DefElem) → Distinct ds → Distinct (sent method ds)
unfolding sent
Distinct-sent method [] h = tt
Distinct-sent method (d ∷ ds) (f, h) = elim (Bool-cases (sendable method d.defname)) [
  | inl e ↦ rw e (Fresh-sent method d.defname ds f, Distinct-sent method ds h)
  | inr e ↦ rw e (Distinct-sent method ds h)
]

-- ===== src/Settings/Lookup.antt =====
-- What `overlay` of src/settings.c does, by name: a later setting replaces an earlier one.
use pg_clickhouse.Prelude.{
  Bytes, ◌≡◌, ◌≢◌, refl, ap, ◌∙◌, sym, List, [], ◌∷◌, Option, none, some, arith, str_eq, str_eq_iff,
  if◌then◌else◌, inl, inr, Bool-cases,
}
use pg_clickhouse.Nodes.{DefElem}
use pg_clickhouse.Settings.{put, overlay}

-- The argument of the first setting of a name, which is the only one where no name is set twice.
unfoldable pub value_of : Bytes → List DefElem → Option (Option Bytes)
value_of k [] = none
value_of k (d ∷ ds) = if str_eq d.defname k then some d.arg else value_of k ds

-- The argument of the last setting of a name, or else a default.
unfoldable pub last_of : Bytes → List DefElem → Option (Option Bytes) → Option (Option Bytes)
last_of k [] o = o
last_of k (d ∷ ds) o = last_of k ds (if str_eq d.defname k then some d.arg else o)

-- No setting of the list has this name.
abbrev pub Fresh : Bytes → List DefElem → Type 0
Fresh k [] = Unit
Fresh k (d ∷ ds) = (d.defname ≢ k) × Fresh k ds

-- No two settings have the same name.
abbrev pub Distinct : List DefElem → Type 0
Distinct [] = Unit
Distinct (d ∷ ds) = Fresh d.defname ds × Distinct ds

pub value_of-Fresh : (k : Bytes) (ds : List DefElem) → Fresh k ds → value_of k ds ≡ none
unfolding value_of
value_of-Fresh k [] f = refl
value_of-Fresh k (d ∷ ds) (h, f) = ground (arith, str_eq_iff d.defname k, value_of-Fresh k ds f, h)

last_of-Fresh :
    (k : Bytes) (ds : List DefElem) (o : Option (Option Bytes)) → Fresh k ds → last_of k ds o ≡ o
unfolding last_of
last_of-Fresh k [] o f = refl
last_of-Fresh k (d ∷ ds) o (h, f) =
    ground (arith, str_eq_iff d.defname k, last_of-Fresh k ds o f, h)

-- Where no name is set twice, the last setting of a name is the first.
pub last_of-value_of :
    (k : Bytes) (ds : List DefElem) → Distinct ds → last_of k ds none ≡ value_of k ds
unfolding last_of value_of
last_of-value_of k [] h = refl
last_of-value_of k (d ∷ ds) (f, h) = elim (Bool-cases (str_eq d.defname k)) [
  | inl e ↦
      let same : d.defname ≡ k = (str_eq_iff d.defname k).0 e in
      rw e (last_of-Fresh k ds (some d.arg) (rw same at f))
  | inr e ↦ rw e (last_of-value_of k ds h)
]

pub value_of-put :
    (k : Bytes) (base : List DefElem) (d : DefElem)
    → value_of k (put base d) ≡ (if str_eq d.defname k then some d.arg else value_of k base)
unfolding value_of put
value_of-put k [] d = refl
value_of-put k (b ∷ base) d = ground (
  arith,
  value_of-put k base d,
  str_eq_iff b.defname d.defname,
  str_eq_iff d.defname k,
  str_eq_iff b.defname k,
)

-- For every name, an overlay holds the last of the new settings of that name, and where there is
-- none, what the base held.
pub value_of-overlay :
    (k : Bytes) (base settings : List DefElem)
    → value_of k (overlay base settings) ≡ last_of k settings (value_of k base)
unfolding overlay last_of
value_of-overlay k base [] = refl
value_of-overlay k base (d ∷ settings) =
    value_of-overlay k (put base d) settings ∙ ap (last_of k settings) (value_of-put k base d)

Fresh-put :
    (k : Bytes) (base : List DefElem) (d : DefElem)
    → d.defname ≢ k
    → Fresh k base
    → Fresh k (put base d)
unfolding put
Fresh-put k [] d h f = (h, tt)
Fresh-put k (b ∷ base) d h (hb, f) = elim (Bool-cases (str_eq b.defname d.defname)) [
  | inl e ↦ rw e (h, f)
  | inr e ↦ rw e (hb, Fresh-put k base d h f)
]

Distinct-put : (base : List DefElem) (d : DefElem) → Distinct base → Distinct (put base d)
unfolding put
Distinct-put [] d h = (tt, tt)
Distinct-put (b ∷ base) d (f, h) = elim (Bool-cases (str_eq b.defname d.defname)) [
  | inl e ↦ rw e (rw ((str_eq_iff b.defname d.defname).0 e) at f, h)
  | inr e ↦
      let other : d.defname ≢ b.defname =
        λ same. cc ((str_eq_iff b.defname d.defname).1 (sym same), e) in
      rw e (Fresh-put b.defname base d other f, Distinct-put base d h)
]

-- An overlay keeps the names distinct.
pub Distinct-overlay :
    (base settings : List DefElem) → Distinct base → Distinct (overlay base settings)
unfolding overlay
Distinct-overlay base [] h = h
Distinct-overlay base (d ∷ settings) h =
    Distinct-overlay (put base d) settings (Distinct-put base d h)

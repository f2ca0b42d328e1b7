-- ===== src/Settings/Merge.antt =====
-- `chfdw_merge_settings` of src/settings.c: the settings of two tables for one query.
use pg_clickhouse.Prelude.{
  Bytes, true, false, ◌≡◌, refl, ap, ◌∙◌, sym, List, [], ◌∷◌, Option, none, some, arith, str_eq,
  str_eq_iff, if◌then◌else◌, ◌⊎◌, inl, inr, Bool-cases,
}
use pg_clickhouse.Nodes.{DefElem}
use pg_clickhouse.Postgres.{Postgres}
use pg_clickhouse.Settings.Lookup.{value_of, value_of-Fresh, Distinct}

module _ (pg : Postgres) where
  -- One round: a setting that is not there yet is appended, and one whose value differs loses its
  -- value.
  unfoldable pub merge_one : List DefElem → DefElem → List DefElem
  merge_one [] d = d ∷ []
  merge_one (m ∷ merged) d =
      if str_eq m.defname d.defname
      then (if pg.equal m.arg d.arg
          then m ∷ merged
          else record { defname = d.defname; arg = none } ∷ merged)
      else m ∷ merge_one merged d

  unfoldable pub merge_settings : List DefElem → List DefElem → List DefElem
  unfolding merge_one
  merge_settings a [] = a
  merge_settings a (d ∷ b) = merge_settings (merge_one a d) b

  -- Two tables' views of one setting: a value that both set alike, or that one sets, stays, and two
  -- values that differ leave the setting with none.
  unfoldable pub agree : Option (Option Bytes) → Option (Option Bytes) → Option (Option Bytes)
  agree none y = y
  agree (some x) none = some x
  agree (some x) (some y) = if pg.equal x y then some x else some none

  value_of-merge_one :
      (k : Bytes) (a : List DefElem) (d : DefElem)
      → value_of k (merge_one a d)
        ≡ (if str_eq d.defname k then agree (value_of k a) (some d.arg) else value_of k a)
  unfolding merge_one value_of agree
  value_of-merge_one k [] d = refl
  value_of-merge_one k (m ∷ a) d = ground (
    arith,
    value_of-merge_one k a d,
    str_eq_iff m.defname d.defname,
    str_eq_iff d.defname k,
    str_eq_iff m.defname k,
  )

  agree-none : (x : Option (Option Bytes)) → agree x none ≡ x
  unfolding agree
  agree-none none = refl
  agree-none (some x) = refl

  -- For every name, the merged settings hold what the two tables agree on, if the second names no
  -- setting twice.
  pub value_of-merge_settings :
      (k : Bytes) (a b : List DefElem)
      → Distinct b
      → value_of k (merge_settings a b) ≡ agree (value_of k a) (value_of k b)
  unfolding merge_settings
  value_of-merge_settings k a [] h = unfold value_of in sym (agree-none (value_of k a))
  value_of-merge_settings k a (d ∷ b) (f, h) =
      value_of-merge_settings k (merge_one a d) b h
      ∙ ap (λ x. agree x (value_of k b)) (value_of-merge_one k a d)
      ∙ by_name (Bool-cases (str_eq d.defname k))
    where
      by_name :
          (str_eq d.defname k ≡ true) ⊎ (str_eq d.defname k ≡ false)
          → agree
              (if str_eq d.defname k then agree (value_of k a) (some d.arg) else value_of k a)
              (value_of k b)
            ≡ agree (value_of k a) (value_of k (d ∷ b))
      by_name (inl e) =
          let same : d.defname ≡ k = (str_eq_iff d.defname k).0 e in
          let gone : value_of k b ≡ none = value_of-Fresh k b (rw same at f) in
          unfold value_of in rw (e, gone, agree-none)
      by_name (inr e) = unfold value_of in rw e

  agree_comm : (x y : Option (Option Bytes)) → agree x y ≡ agree y x
  unfolding agree
  agree_comm none none = refl
  agree_comm none (some y) = refl
  agree_comm (some x) none = refl
  agree_comm (some x) (some y) = ground (arith, pg.equal_iff x y, pg.equal_iff y x)

  -- The order in which the tables of a query are merged does not matter for the value of any
  -- setting, if neither table names one twice.
  pub merge_settings_comm :
      (k : Bytes) (a b : List DefElem)
      → Distinct a
      → Distinct b
      → value_of k (merge_settings a b) ≡ value_of k (merge_settings b a)
  merge_settings_comm k a b ha hb =
      value_of-merge_settings k a b hb
      ∙ agree_comm (value_of k a) (value_of k b)
      ∙ sym (value_of-merge_settings k b a ha)

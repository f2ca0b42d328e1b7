-- ===== src/Deparse/Nulls/ArrayOp.antt =====
-- src/deparse.c, `deparseScalarArrayOpExpr`: whichever form it chooses has PostgreSQL's answer.
use pg_clickhouse.Prelude.{
  ℕ, ◌≡◌, refl, ap, sym, subst, ◌∙◌, Bool, true, false, not, ◌||◌, ◌&&◌, Option, none, some, List,
  [], ◌∷◌, All, and_true, ◌⊎◌, inl, inr,
}
use pg_clickhouse.Deparse.Nulls.Tree.{
  Expr, ArrayArg, const_array, array_expr, other_array, QueryInfo,
}
use pg_clickhouse.Deparse.Nulls.Values.{datum_of, is_true}
use pg_clickhouse.Deparse.Nulls.Agree.{Agrees, Agrees-same, if_either}
use pg_clickhouse.Deparse.Nulls.Postgres.{Database, exec_array_op, eval, eval_array}
use pg_clickhouse.Deparse.Nulls.Proved.{
  expr_never_null, SaopArrayNulls, arr_empty, arr_null_free, arr_unknown, saop_array_nulls,
}
use pg_clickhouse.Deparse.Nulls.NeverNull.{
  IsValue, IsArithmetic, Respects, IsValue-eval, ArrayIs, ArrayIs-saop_array_nulls,
}
use pg_clickhouse.Deparse.Nulls.ArrayAnswers.{in_values-exec, in_values-is_true}
use pg_clickhouse.Deparse.Nulls.ArrayForms.{eval-guarded, eval-cheap_empty, eval-cheap_values}
use pg_clickhouse.Deparse.Nulls.Sql.{
  Sql, parens, in_array, SqlArray, in_values, eval_sql, sql_elements,
}
use pg_clickhouse.Deparse.Nulls.Emit.{
  same_bool, is_ok_in_expr, is_null_free, is_empty, cheap_array_op, deparse_guarded_array_op,
  deparse_array_op,
}

some_inj : {A : Type 0} {a b : A} → some a ≡ some b → a ≡ b
some_inj h = cc

same_bool-≡ : (a b : Bool) → same_bool a b ≡ true → b ≡ a
unfolding same_bool
same_bool-≡ true true h = refl
same_bool-≡ true false h = absurd cc
same_bool-≡ false true h = absurd cc
same_bool-≡ false false h = refl

or_true : (a b : Bool) → (a || b) ≡ true → (a ≡ true) ⊎ (b ≡ true)
or_true true b h = inl refl
or_true false b h = inr h

is_null_free-≡ : (n : SaopArrayNulls) → is_null_free n ≡ true → n ≡ arr_null_free
unfolding is_null_free
is_null_free-≡ arr_empty h = absurd cc
is_null_free-≡ arr_null_free h = refl
is_null_free-≡ arr_unknown h = absurd cc

is_empty-≡ : (n : SaopArrayNulls) → is_empty n ≡ true → n ≡ arr_empty
unfolding is_empty
is_empty-≡ arr_empty h = refl
is_empty-≡ arr_null_free h = absurd cc
is_empty-≡ arr_unknown h = absurd cc

module _ {Row : Type 0} (db : Database Row) (cat : QueryInfo) (row : Row)
    (arithmetic : IsArithmetic db) (respects : Respects db cat row) where
  is_ok_in_expr-eval_array :
      (a : ArrayArg)
      → is_ok_in_expr a ≡ true
      → (x : Option ℕ) × (xs : List (Option ℕ)) × (eval_array db a row ≡ some (x ∷ xs))
  unfolding is_ok_in_expr eval_array
  is_ok_in_expr-eval_array (const_array none) h = absurd cc
  is_ok_in_expr-eval_array (const_array (some [])) h = absurd cc
  is_ok_in_expr-eval_array (const_array (some (x ∷ xs))) h = (x, xs, refl)
  is_ok_in_expr-eval_array (array_expr multidims es) h = absurd cc
  is_ok_in_expr-eval_array (other_array k es) h = absurd cc

  null_free-All :
      (a : ArrayArg) (ys : List (Option ℕ))
      → eval_array db a row ≡ some ys
      → is_null_free (saop_array_nulls cat a) ≡ true
      → All IsValue ys
  unfolding ArrayIs
  null_free-All a ys value h =
      let class_is : ArrayIs arr_null_free (eval_array db a row) =
        subst (λ n. ArrayIs n (eval_array db a row)) (is_null_free-≡ _ h)
          (ArrayIs-saop_array_nulls db cat row arithmetic respects a) in
      let (xs, same, values) = class_is in subst (All IsValue) (some_inj (sym same ∙ value)) values

  empty-[] :
      (a : ArrayArg) (ys : List (Option ℕ))
      → eval_array db a row ≡ some ys
      → is_empty (saop_array_nulls cat a) ≡ true
      → ys ≡ []
  unfolding ArrayIs
  empty-[] a ys value h =
      let class_is : ArrayIs arr_empty (eval_array db a row) =
        subst (λ n. ArrayIs n (eval_array db a row)) (is_empty-≡ _ h)
          (ArrayIs-saop_array_nulls db cat row arithmetic respects a) in
      some_inj (sym value ∙ class_is)

  module _ (probe : Expr) (a : ArrayArg) (s : Sql) (arr : SqlArray)
      (probe_same : eval_sql db s row ≡ eval db probe row)
      (array_same : eval_array db a row ≡ some (sql_elements db arr row)) where
    -- That `sql` may stand for the comparison.
    Fits : Bool → Bool → Bool → Sql → Type 0
    Fits truth use_or equal sql = Agrees truth (eval_sql db sql row) (
        datum_of (
          exec_array_op db.same use_or (some equal) (eval_sql db s row)
            (some (sql_elements db arr row))))

    native_exact :
        (truth use_or : Bool)
        → is_ok_in_expr a ≡ true
        → All IsValue (sql_elements db arr row)
        → Fits truth use_or use_or (parens (in_array (not use_or) s arr))
    unfolding Fits eval_sql
    native_exact truth use_or ok values =
        let (x, xs, value) = is_ok_in_expr-eval_array a ok in
        let shape : sql_elements db arr row ≡ x ∷ xs = some_inj (sym array_same ∙ value) in
        Agrees-same truth _ _ (
          ap datum_of (
            subst
              (λ ys.
                All IsValue ys
                → in_values db.same (not use_or) (eval_sql db s row) ys
                  ≡ exec_array_op db.same use_or (some use_or) (eval_sql db s row) (some ys))
              (sym shape) (in_values-exec db.same use_or (eval_sql db s row) x xs) values))

    native_truth : is_ok_in_expr a ≡ true → Fits true true true (parens (in_array false s arr))
    unfolding Fits eval_sql Agrees
    native_truth ok =
        let (x, xs, value) = is_ok_in_expr-eval_array a ok in
        let shape : sql_elements db arr row ≡ x ∷ xs = some_inj (sym array_same ∙ value) in
        subst
          (λ ys.
            is_true (datum_of (in_values db.same false (eval_sql db s row) ys))
            ≡ is_true
                (datum_of (exec_array_op db.same true (some true) (eval_sql db s row) (some ys))))
          (sym shape) (in_values-is_true db.same (eval_sql db s row) x xs)

    native-Fits :
        (truth use_or equal : Bool)
        → ((is_null_free (saop_array_nulls cat a) || (truth && use_or && equal))
            && is_ok_in_expr a
            && same_bool use_or equal)
          ≡ true
        → Fits truth use_or equal (parens (in_array (not equal) s arr))
    native-Fits truth use_or equal h =
        let (left, same) = and_true _ _ h in
        let (why, ok) = and_true _ _ left in
        subst (λ b. Fits truth use_or b (parens (in_array (not b) s arr)))
          (sym (same_bool-≡ use_or equal same))
          (elim (or_true _ _ why) [
            | inl free ↦ native_exact truth use_or ok (null_free-All a _ array_same free)
            | inr narrow ↦ narrow-Fits narrow ok
          ])
      where
        narrow-Fits :
            (truth && use_or && equal) ≡ true
            → is_ok_in_expr a ≡ true
            → Fits truth use_or use_or (parens (in_array (not use_or) s arr))
        narrow-Fits narrow ok =
            let (two, _) = and_true (truth && use_or) equal narrow in
            let (t, u) = and_true truth use_or two in rw (t, u) (native_truth ok)

    cheap-Fits :
        (truth use_or equal : Bool)
        → (is_empty (saop_array_nulls cat a)
            || (is_null_free (saop_array_nulls cat a) && expr_never_null cat probe))
          ≡ true
        → Fits truth use_or equal (cheap_array_op use_or equal s arr)
    unfolding Fits
    cheap-Fits truth use_or equal h = Agrees-same truth _ _ (elim (or_true _ _ h) [
      | inl empty ↦ eval-cheap_empty db row s arr use_or equal (empty-[] a _ array_same empty)
      | inr both ↦
          eval-cheap_values db row s arr use_or equal
            (subst IsValue (sym probe_same)
              (IsValue-eval db cat row arithmetic respects probe (and_true _ _ both).1))
            (null_free-All a _ array_same (and_true _ _ both).0)
    ])

    guarded-Fits :
        (truth use_or equal : Bool)
        → Fits truth use_or equal (deparse_guarded_array_op use_or equal s arr)
    unfolding Fits
    guarded-Fits truth use_or equal = Agrees-same truth _ _ (eval-guarded db row s arr use_or equal)

    -- Whichever form is chosen, for any use of its result.
    deparse_array_op-Fits :
        (truth use_or equal : Bool)
        → Fits truth use_or equal (deparse_array_op cat truth use_or equal probe a s arr)
    unfolding deparse_array_op
    deparse_array_op-Fits truth use_or equal =
        if_either (Fits truth use_or equal) _ _ _ (native-Fits truth use_or equal) (λ _.
          if_either (Fits truth use_or equal) _ _ _ (cheap-Fits truth use_or equal)
            (λ _. guarded-Fits truth use_or equal))

    -- Given that arithmetic has values for values, and
    -- for texts of the probe and the array that ClickHouse evaluates to PostgreSQL's values, the text
    -- of a comparison with ANY or ALL of an array has PostgreSQL's answer on every row that keeps the
    -- NOT NULL constraints: the same value, NULL included, or where only truth counts, the same truth.
    pub deparse_array_op-Agrees :
        (truth use_or equal : Bool)
        → Agrees truth (eval_sql db (deparse_array_op cat truth use_or equal probe a s arr) row) (
            datum_of
              (exec_array_op db.same use_or (some equal) (eval db probe row) (eval_array db a row)))
    deparse_array_op-Agrees truth use_or equal =
        let fits = deparse_array_op-Fits truth use_or equal in
        unfold Fits in rw (array_same, sym probe_same) fits

-- ===== src/Deparse/Nulls/Subquery.antt =====
-- src/deparse.c, `deparseSubPlan` and `deparseGuardedNotIn`: the forms of `x = ANY (SELECT ..)` and
-- of its negation against the answers of PostgreSQL.
use pg_clickhouse.Prelude.{
  ℕ, ◌≡◌, refl, sym, ◌∙◌, Bool, true, false, not, ◌&&◌, Option, none, some, All, if◌then◌else◌,
  Bool-cases, Option-cases, inl, inr,
}
use pg_clickhouse.Deparse.Nulls.Values.{datum_of, is_true, is_null, not3, is_nonempty}
use pg_clickhouse.Deparse.Nulls.Agree.{is_true-datum_of}
use pg_clickhouse.Deparse.Nulls.Postgres.{Database, exec_array_op}
use pg_clickhouse.Deparse.Nulls.Proved.{has_null}
use pg_clickhouse.Deparse.Nulls.NeverNull.{IsValue}
use pg_clickhouse.Deparse.Nulls.ArrayForms.{both_true}
use pg_clickhouse.Deparse.Nulls.Sql.{
  in_values, holds_value, negate, Sql, Select, eval_sql, eval_select, parens, both, in_select,
  exists, case_of, case_when, end, bare_null_check,
}
use pg_clickhouse.Deparse.Nulls.Emit.{deparse_guarded_not_in}
use pg_clickhouse.Deparse.Nulls.AnyAnswers.{
  not_any-some, not_any-null, has_null-values, and_right, not-IsValue,
}

module _ {Row : Type 0} where
  module _ (db : Database Row) (row : Row) (s : Sql) (body nullbody : Select)
      (poison : is_nonempty (eval_select db nullbody row)
        ≡ has_null (eval_select db body row)) where
    -- `x NOT IN (SELECT ..)` with the guard that looks for NULL.
    guarded_some :
        (p : ℕ)
        → eval_sql db s row ≡ some p
        → is_true (eval_sql db (parens (both (in_select true s body) (exists true nullbody))) row)
          ≡ not (holds_value db.same p (eval_select db body row))
            && not (has_null (eval_select db body row))
    unfolding eval_sql in_values negate
    guarded_some p value =
        rw (value, poison)
          (both_true (not (holds_value db.same p (eval_select db body row)))
            (not (has_null (eval_select db body row))))

    plain_some :
        (p : ℕ)
        → eval_sql db s row ≡ some p
        → has_null (eval_select db body row) ≡ false
        → is_true (eval_sql db (parens (in_select true s body)) row)
          ≡ not (holds_value db.same p (eval_select db body row))
            && not (has_null (eval_select db body row))
    unfolding eval_sql in_values
    plain_some p value clean =
        rw (value, clean)
          (is_true-datum_of (not (holds_value db.same p (eval_select db body row)))
            ∙ and_right (not (holds_value db.same p (eval_select db body row))))

    -- PostgreSQL's answer.
    not_any : Option ℕ
    not_any = datum_of (
        not3 (
          exec_array_op db.same true (some true) (eval_sql db s row)
            (some (eval_select db body row))))

    not_any-at :
        (p : ℕ)
        → eval_sql db s row ≡ some p
        → is_true not_any
          ≡ not (holds_value db.same p (eval_select db body row))
            && not (has_null (eval_select db body row))
    unfolding not_any
    not_any-at p value = rw value (not_any-some db.same p (eval_select db body row))

    not_any-missing :
        eval_sql db s row ≡ none → is_true not_any ≡ not (is_nonempty (eval_select db body row))
    unfolding not_any
    not_any-missing missing = rw missing (not_any-null db.same (eval_select db body row))

    guarded : Bool → Sql
    guarded output_nullable =
        if output_nullable
        then parens (both (in_select true s body) (exists true nullbody))
        else parens (in_select true s body)

    module _ (output_nullable : Bool)
        (output_known : output_nullable ≡ false → All IsValue (eval_select db body row)) where
      eval-guarded-some :
          (p : ℕ)
          → eval_sql db s row ≡ some p
          → is_true (eval_sql db (guarded output_nullable) row) ≡ is_true not_any
      unfolding guarded
      eval-guarded-some p value = elim (Bool-cases output_nullable) [
        | inl nullable ↦ rw nullable (guarded_some p value) ∙ sym (not_any-at p value)
        | inr known ↦
            rw known (plain_some p value (has_null-values _ (output_known known)))
            ∙ sym (not_any-at p value)
      ]

      probe_case : Sql
      probe_case = parens (
          case_of (case_when (bare_null_check (parens s)) (exists true body) end)
            (guarded output_nullable))

      eval-probe_case :
          (o : Option ℕ)
          → eval_sql db s row ≡ o
          → is_true (eval_sql db probe_case row) ≡ is_true not_any
      unfolding probe_case eval_sql is_null
      eval-probe_case none missing =
          rw missing (rw (is_true-datum_of true) (unfold negate in is_true-datum_of _))
          ∙ sym (not_any-missing missing)
      eval-probe_case (some p) value =
          rw value (rw (is_true-datum_of false) refl) ∙ eval-guarded-some p value

      -- Where a probe or an output whose guard is left out holds no NULL, and the form that asks for
      -- NULL finds a row exactly when the output holds one, the guarded form is true on a row exactly
      -- where PostgreSQL's NOT (x = ANY (SELECT ..)) is.
      pub deparse_guarded_not_in-is_true :
          (probe_nullable : Bool)
          → (probe_nullable ≡ false → IsValue (eval_sql db s row))
          → is_true (
              eval_sql db
                (deparse_guarded_not_in
                  (record { probe_nullable = probe_nullable; output_nullable = output_nullable })
                  s
                  body
                  nullbody)
                row)
            ≡ is_true (
                datum_of (
                  not3 (
                    exec_array_op db.same true
                      (some true)
                      (eval_sql db s row)
                      (some (eval_select db body row)))))
      unfolding deparse_guarded_not_in guarded probe_case not_any
      deparse_guarded_not_in-is_true true h = eval-probe_case (eval_sql db s row) refl
      deparse_guarded_not_in-is_true false h = elim (Option-cases (eval_sql db s row)) [
        | inl missing ↦ absurd (not-IsValue (eval_sql db s row) missing (h refl))
        | inr (p, value) ↦ eval-guarded-some p value
      ]

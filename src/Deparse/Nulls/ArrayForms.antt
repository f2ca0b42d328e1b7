-- ===== src/Deparse/Nulls/ArrayForms.antt =====
-- src/deparse.c, `deparseScalarArrayOpExpr`: each of the forms against the answer of PostgreSQL.
use pg_clickhouse.Prelude.{◌≡◌, refl, ap, ◌∙◌, Bool, true, false, ◌&&◌, none, some, [], ltb, All}
use pg_clickhouse.Deparse.Nulls.Values.{and3, is_null, is_true, datum_of, truth_of, is_nonempty}
use pg_clickhouse.Deparse.Nulls.Postgres.{Database, exec_array_op}
use pg_clickhouse.Deparse.Nulls.NeverNull.{IsValue}
use pg_clickhouse.Deparse.Nulls.Agree.{is_true-datum_of, truth_of-datum_of}
use pg_clickhouse.Deparse.Nulls.Emit.{
  same_bool, match_test, deparse_guarded_array_op, cheap_array_op,
}
use pg_clickhouse.Deparse.Nulls.Sql.{Sql, SqlArray, count_same, relate, eval_sql, sql_elements}
use pg_clickhouse.Deparse.Nulls.ArrayAnswers.{
  match_count, guarded_answer, guarded_answer-exec, cheap_answer, cheap_answer-empty, cheap_exec,
  exec-empty,
}

pub both_true :
    (a b : Bool)
    → is_true (datum_of (and3 (truth_of (datum_of (some a))) (truth_of (datum_of (some b)))))
      ≡ a && b
both_true a b = rw (truth_of-datum_of (some a), truth_of-datum_of (some b)) (both a b)
  where
    both : (a b : Bool) → is_true (datum_of (and3 (some a) (some b))) ≡ a && b
    both true b = unfold and3 in is_true-datum_of b
    both false b = unfold and3 in is_true-datum_of false

module _ {Row : Type 0} (db : Database Row) (row : Row) (s : Sql) (a : SqlArray) where
  eval-match_test :
      (use_or equal : Bool)
      → is_true (eval_sql db (match_test use_or equal s a) row)
        ≡ ltb 0 (
            match_count db.same
              (same_bool equal use_or)
              (eval_sql db s row)
              (sql_elements db a row))
  unfolding match_test eval_sql match_count same_bool relate datum_of
  eval-match_test true true = is_true-datum_of _
  eval-match_test true false = is_true-datum_of _
  eval-match_test false true = is_true-datum_of _
  eval-match_test false false = is_true-datum_of _

  eval-null_test :
      is_true (datum_of (some (ltb 0 (count_same db.same (datum_of none) (sql_elements db a row)))))
      ≡ ltb 0 (count_same db.same none (sql_elements db a row))
  unfolding datum_of
  eval-null_test = is_true-datum_of _

  eval-guarded_answer :
      (use_or equal : Bool)
      → eval_sql db (deparse_guarded_array_op use_or equal s a) row
        ≡ guarded_answer db.same use_or
            (same_bool equal use_or)
            (eval_sql db s row)
            (sql_elements db a row)
  unfolding deparse_guarded_array_op eval_sql relate guarded_answer
  eval-guarded_answer use_or equal =
      rw
        (
          both_true (is_null (eval_sql db s row)) (is_nonempty (sql_elements db a row)),
          eval-match_test use_or equal,
          eval-null_test,
        )
        (unfold datum_of in refl)

  -- The guarded form has PostgreSQL's answer for every probe and every array.
  pub eval-guarded :
      (use_or equal : Bool)
      → eval_sql db (deparse_guarded_array_op use_or equal s a) row
        ≡ datum_of (
            exec_array_op db.same use_or
              (some equal)
              (eval_sql db s row)
              (some (sql_elements db a row)))
  eval-guarded use_or equal =
      eval-guarded_answer use_or equal
      ∙ guarded_answer-exec db.same use_or equal (eval_sql db s row) (sql_elements db a row)

  eval-cheap_answer :
      (use_or equal : Bool)
      → eval_sql db (cheap_array_op use_or equal s a) row
        ≡ datum_of
            (some (cheap_answer db.same use_or equal (eval_sql db s row) (sql_elements db a row)))
  unfolding cheap_array_op eval_sql cheap_answer relate
  eval-cheap_answer true true = refl
  eval-cheap_answer true false = refl
  eval-cheap_answer false true = refl
  eval-cheap_answer false false = refl

  -- The short form has PostgreSQL's answer for the empty array.
  pub eval-cheap_empty :
      (use_or equal : Bool)
      → sql_elements db a row ≡ []
      → eval_sql db (cheap_array_op use_or equal s a) row
        ≡ datum_of (
            exec_array_op db.same use_or
              (some equal)
              (eval_sql db s row)
              (some (sql_elements db a row)))
  eval-cheap_empty use_or equal h =
      eval-cheap_answer use_or equal
      ∙ rw
          (
            h,
            cheap_answer-empty db.same use_or equal (eval_sql db s row),
            exec-empty db.same use_or equal (eval_sql db s row),
          )
          refl

  -- The short form has PostgreSQL's answer for a probe and an array that hold no NULL.
  pub eval-cheap_values :
      (use_or equal : Bool)
      → IsValue (eval_sql db s row)
      → All IsValue (sql_elements db a row)
      → eval_sql db (cheap_array_op use_or equal s a) row
        ≡ datum_of (
            exec_array_op db.same use_or
              (some equal)
              (eval_sql db s row)
              (some (sql_elements db a row)))
  eval-cheap_values use_or equal h hs =
      eval-cheap_answer use_or equal
      ∙ ap datum_of
          (cheap_exec db.same use_or equal (eval_sql db s row) (sql_elements db a row) h hs)

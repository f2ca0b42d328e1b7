-- ===== src/Deparse/Nulls/SubplanNodes.antt =====
-- src/deparse.c: a subquery as a node of a condition, with its probe and under NOT.
use pg_clickhouse.Prelude.{
  ℕ, ◌≡◌, refl, ap, sym, subst, ◌∙◌, Bool, true, false, Option, some, List, All,
}
use pg_clickhouse.Deparse.Nulls.Tree.{
  SubLinkType, exists_sublink, expr_sublink, any_sublink, Expr, subplan, not_expr, Exprs, QueryInfo,
}
use pg_clickhouse.Deparse.Nulls.Tree
use pg_clickhouse.Deparse.Nulls.Values.{datum_of, is_true, is_nonempty, first_value, not3}
use pg_clickhouse.Deparse.Nulls.Proved.{
  expr_never_null, has_null, ship_plain, notin_prove_nullability, classify_notin_subplan,
}
use pg_clickhouse.Deparse.Nulls.Postgres.{
  Database, exec_array_op, exec_subplan, query_output, eval, eval_all,
}
use pg_clickhouse.Deparse.Nulls.NeverNull.{
  IsValue, IsArithmetic, Respects, Constrained, IsValue-eval,
}
use pg_clickhouse.Deparse.Nulls.Agree.{Agrees, Agrees-same, truth_of-datum_of}
use pg_clickhouse.Deparse.Nulls.AnyAnswers.{in_select-is_true, in_select-exec}
use pg_clickhouse.Deparse.Nulls.QueryRows.{query_output-columns, All-map-keep}
use pg_clickhouse.Deparse.Nulls.Subquery.{deparse_guarded_not_in-is_true}
use pg_clickhouse.Deparse.Nulls.Subplans.{
  prove-probe, prove-output, classify-plain, All-keep, All-imp, RowsConstrained, Respects-inner,
  wanted, output, eval_select-query_output, null_probe-has_null,
}
use pg_clickhouse.Deparse.Nulls.Nodes.{IsFor, IsForAll}
use pg_clickhouse.Deparse.Nulls.Sql.{
  one, nil, cons, Sql, Sqls, select, null_probe, eval_sql, eval_select, negate,
}
use pg_clickhouse.Deparse.Nulls.Emit.{deparse_subplan, deparse_guarded_not_in, within}

module _ {Row : Type 0} (db : Database Row) (inner : ℕ → QueryInfo) (arithmetic : IsArithmetic db)
    (rows_ok : RowsConstrained db inner) where
  -- A column of a grouped subquery that is proved free of NULL is free of NULL.
  abbrev pub GroupsKeep : ℕ → Type 0
  GroupsKeep id =
      (rows : List Row)
      → All (Constrained db (inner id)) rows
      → All IsValue (db.grouped_output id rows)

  query_values :
      (id : ℕ) (g : Bool)
      → (g ≡ true → GroupsKeep id)
      → (p : Row → Bool) (f : Row → Option ℕ) (row : Row)
      → All (λ r. IsValue (f r)) (db.from_rows id row)
      → All IsValue (query_output db id g p f row)
  unfolding query_output
  query_values id true groups p f row h =
      groups refl _ (All-keep (Constrained db (inner id)) p _ (rows_ok id row))
  query_values id false groups p f row h = All-map-keep p f _ h

  eval_all-first :
      (out : Expr) (more : Exprs) (r : Row)
      → first_value (eval_all db (Tree.cons out more) r) ≡ eval db out r
  unfolding eval first_value
  eval_all-first out more r = refl

  module _ (cat : QueryInfo) (id : ℕ) (probe : Expr) (quals outs : Exprs) (grouped : Bool) (s : Sql)
      (ss qs : Sqls) (outs_for : IsForAll db (within cat (inner id)) false outs ss)
      (quals_for : IsForAll db (within cat (inner id)) true quals qs) where
    -- What PostgreSQL computes for the subquery.
    result : Row → List (Option ℕ)
    result row =
        query_output db id grouped
          (wanted db inner rows_ok cat id quals outs ss qs outs_for quals_for)
          (output db inner rows_ok cat id quals outs ss qs outs_for quals_for) row

    body-result : (row : Row) → eval_select db (select id grouped ss qs) row ≡ result row
    unfolding result
    body-result row =
        eval_select-query_output db inner rows_ok cat id quals outs ss qs outs_for quals_for grouped
          row

    eval-result :
        (link : SubLinkType) (row : Row)
        → eval db (subplan link id probe quals outs grouped) row
          ≡ exec_subplan db.same link (eval db probe row) (result row)
    unfolding eval result wanted output
    eval-result link row = refl

    eval-exists :
        (row : Row)
        → eval db (subplan exists_sublink id probe quals outs grouped) row
          ≡ datum_of (some (is_nonempty (result row)))
    unfolding exec_subplan
    eval-exists row = eval-result exists_sublink row

    eval-any :
        (row : Row)
        → eval db (subplan any_sublink id probe quals outs grouped) row
          ≡ datum_of
              (exec_array_op db.same true (some true) (eval db probe row) (some (result row)))
    unfolding exec_subplan
    eval-any row = eval-result any_sublink row

    eval-expr :
        (row : Row)
        → eval db (subplan expr_sublink id probe quals outs grouped) row ≡ first_value (result row)
    unfolding exec_subplan
    eval-expr row = eval-result expr_sublink row

    any_columns :
        (row : Row)
        → is_nonempty (eval_select db (select id grouped (cons one nil) qs) row)
          ≡ is_nonempty (eval_select db (select id grouped ss qs) row)
    unfolding eval_select
    any_columns row = query_output-columns db id grouped _ _ _ row

    pub exists-IsFor :
        (truth : Bool)
        → IsFor db cat truth
            (subplan exists_sublink id probe quals outs grouped)
            (deparse_subplan exists_sublink s (select id grouped (cons one nil) qs))
    unfolding deparse_subplan eval_sql negate
    exists-IsFor truth row ok = Agrees-same truth _ _ (
        ap (λ b. datum_of (some b)) (any_columns row ∙ ap is_nonempty (body-result row))
        ∙ sym (eval-exists row))

    pub expr-IsFor :
        (truth : Bool)
        → IsFor db cat truth
            (subplan expr_sublink id probe quals outs grouped)
            (deparse_subplan expr_sublink s (select id grouped ss qs))
    unfolding deparse_subplan eval_sql
    expr-IsFor truth row ok =
        Agrees-same truth _ _ (ap first_value (body-result row) ∙ sym (eval-expr row))

    output-IsValue :
        (out : Expr) (more : Exprs)
        → outs ≡ Tree.cons out more
        → expr_never_null (inner id) out ≡ true
        → (r : Row) → Constrained db (inner id) r
        → IsValue (output db inner rows_ok cat id quals outs ss qs outs_for quals_for r)
    unfolding output
    output-IsValue out more shape proved r ok =
        rw (shape, eval_all-first out more r)
          (IsValue-eval db (inner id) r arithmetic (Respects-inner db inner id r ok) out proved)

    -- The output of a subquery that is proved free of NULL.
    result-values :
        (grouped ≡ true → GroupsKeep id)
        → (notin_prove_nullability cat (inner id) probe outs).output_nullable ≡ false
        → (row : Row) → All IsValue (result row)
    unfolding result
    result-values groups known row =
        let (out, more, shape, proved) = prove-output cat (inner id) probe outs known in
        query_values id grouped groups _ _ row (
          All-imp (Constrained db (inner id)) _ _ (output-IsValue out more shape proved)
            (rows_ok id row))

    null_probe-ungrouped :
        (g : Bool)
        → g ≡ false
        → (row : Row)
        → is_nonempty (eval_select db (null_probe id g ss qs) row)
          ≡ has_null (eval_select db (select id g ss qs) row)
    null_probe-ungrouped true h row = absurd cc
    null_probe-ungrouped false h row = null_probe-has_null db inner id ss qs row

    no_groups : (g : Bool) → g ≡ false → g ≡ true → GroupsKeep id
    no_groups true h h' = absurd cc
    no_groups false h h' = absurd cc

    module _ (probe_for : IsFor db cat false probe s) where
      probe_same : (row : Row) → Respects db cat row → eval_sql db s row ≡ eval db probe row
      probe_same row ok = let same : Agrees false _ _ = probe_for row ok in unfold Agrees in same

      -- Where only truth counts, IN stands for = ANY.
      pub any-IsFor_truth :
          IsFor db cat true
            (subplan any_sublink id probe quals outs grouped)
            (deparse_subplan any_sublink s (select id grouped ss qs))
      unfolding deparse_subplan eval_sql Agrees
      any-IsFor_truth row ok =
          in_select-is_true db.same (eval_sql db s row)
            (eval_select db (select id grouped ss qs) row)
          ∙ rw (probe_same row ok, body-result row) (ap is_true (sym (eval-any row)))

      -- Elsewhere it does where the two sides are proved free of NULL.
      pub any-IsFor_exact :
          (grouped ≡ true → GroupsKeep id)
          → classify_notin_subplan cat (inner id) probe outs grouped ≡ ship_plain
          → IsFor db cat false
              (subplan any_sublink id probe quals outs grouped)
              (deparse_subplan any_sublink s (select id grouped ss qs))
      unfolding deparse_subplan eval_sql Agrees
      any-IsFor_exact groups plain row ok =
          let (probe_known, output_known) =
            classify-plain cat (inner id) probe outs grouped plain in
          let value : IsValue (eval db probe row) =
            IsValue-eval db cat row arithmetic ok probe
              (prove-probe cat (inner id) probe outs probe_known) in
          rw (probe_same row ok, body-result row)
            (ap datum_of (
              in_select-exec db.same (eval db probe row) (result row) value
                (result-values groups output_known row)))
          ∙ sym (eval-any row)

      not_any-eval :
          (row : Row)
          → Respects db cat row
          → is_true (eval db (not_expr (subplan any_sublink id probe quals outs grouped)) row)
            ≡ is_true (
                datum_of (
                  not3 (
                    exec_array_op db.same true
                      (some true)
                      (eval_sql db s row)
                      (some (eval_select db (select id grouped ss qs) row)))))
      unfolding eval
      not_any-eval row ok =
          rw (eval-any row, probe_same row ok, body-result row)
            (ap (λ b. is_true (datum_of (not3 b))) (truth_of-datum_of _))

      -- Under NOT, where only truth counts, the guarded form stands for the negation.
      pub guarded_not_in-IsFor :
          grouped ≡ false
          → IsFor db cat true (not_expr (subplan any_sublink id probe quals outs grouped)) (
              deparse_guarded_not_in
                (notin_prove_nullability cat (inner id) probe outs)
                s
                (select id grouped ss qs)
                (null_probe id grouped ss qs))
      unfolding Agrees
      guarded_not_in-IsFor ungrouped row ok =
          deparse_guarded_not_in-is_true db row s (select id grouped ss qs)
            (null_probe id grouped ss qs) (null_probe-ungrouped grouped ungrouped row)
            (notin_prove_nullability cat (inner id) probe outs).output_nullable
            (λ known.
              subst (All IsValue) (sym (body-result row))
                (result-values (no_groups grouped ungrouped) known row))
            (notin_prove_nullability cat (inner id) probe outs).probe_nullable
            (λ known. subst IsValue (sym (probe_same row ok)) (
              IsValue-eval db cat row arithmetic ok probe
                (prove-probe cat (inner id) probe outs known)))
          ∙ sym (not_any-eval row ok)

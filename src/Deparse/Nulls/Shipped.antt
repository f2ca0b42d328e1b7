-- ===== src/Deparse/Nulls/Shipped.antt =====
-- src/deparse.c: every condition that `foreign_expr_walker` accepts is sent without an error, and
-- what is sent agrees with PostgreSQL's answer.
use pg_clickhouse.Prelude.{
  ℕ, ◌≡◌, refl, Bytes, Bool, true, false, Option, none, some, and_true, Bool-cases, inl, inr,
}
use pg_clickhouse.Deparse.Nulls.Tree.{
  SubLinkType, exists_sublink, expr_sublink, any_sublink, Var, Expr, const, var, param, relabel,
  op_expr, other, not_expr, bool_expr, is_null_test, is_not_null_test, array_op, case_expr, subplan,
  Exprs, Whens, ArrayArg, const_array, other_array, QueryInfo,
}
use pg_clickhouse.Deparse.Nulls.Tree
use pg_clickhouse.Deparse.Nulls.Proved.{classify_notin_subplan}
use pg_clickhouse.Deparse.Nulls.Postgres.{eval, Database}
use pg_clickhouse.Deparse.Nulls.NeverNull.{Respects, IsArithmetic}
use pg_clickhouse.Deparse.Nulls.Subplans.{RowsConstrained}
use pg_clickhouse.Deparse.Nulls.Agree.{Agrees}
use pg_clickhouse.Deparse.Nulls.Sent.{Sent, Sent-lift, Sent-lift2, Sent-lift3}
use pg_clickhouse.Deparse.Nulls.Nodes.{
  IsFor, IsForAll, IsForWhens, IsForArray, call_op-IsFor, call_other-IsFor, connective-IsFor,
  is_null_check-IsFor, is_not_null_check-IsFor, wrapped-IsFor, condition-IsFor, case_of-IsFor,
  case_when-IsForWhens, nil-IsForAll, cons-IsForAll, end-IsForWhens, literal-IsForArray,
  array_expr-IsForArray, array_other-IsForArray,
}
use pg_clickhouse.Deparse.Nulls.Walker.{
  ctx_negated, below_not, is_any_sublink, foreign_expr_walker, walk_all, walk_whens, walk_array,
}
use pg_clickhouse.Deparse.Nulls.Contexts.{ctx_of}
use pg_clickhouse.Deparse.Nulls.Sql.{
  Sql, eval_sql, literal, column, outer_value, call_op, call_other, connective, is_null_check,
  is_not_null_check, case_of, nil, cons, end, case_when, array_literal, array_expr, array_other,
}
use pg_clickhouse.Deparse.Nulls.Emit.{
  wrapped, condition, within, is_guarded_not_in, deparse_expr, deparse_all, deparse_whens,
  deparse_array, deparse_not_in,
}
use pg_clickhouse.Deparse.Nulls.ShippedNodes.{
  GroupsConstrained, array_op-Shipped, not-Shipped, not_in-Shipped, exists-Shipped, expr-Shipped,
  any-Shipped, not_any-Shipped,
}
use pg_clickhouse.Deparse.Nulls.Leaves.{
  leaf-Shipped, literal-eval, column-eval, outer_value-eval, relabel-IsFor,
}
use pg_clickhouse.Deparse.Nulls.Below.{
  same_ctx, same_ctx_all, same_ctx_whens, exact_walk, not_guarded, nested, top_gate,
}

module _ {Row : Type 0} (db : Database Row) (accepts : Expr → Bool) (inner : ℕ → QueryInfo)
    (arithmetic : IsArithmetic db) (rows_ok : RowsConstrained db inner)
    (groups : GroupsConstrained db accepts inner) where
  mutual
    unfolding foreign_expr_walker deparse_expr is_guarded_not_in below_not is_any_sublink

    shipped :
        (wcat cat : QueryInfo) (sub : Bool)
        → (sub ≡ false → wcat ≡ cat)
        → (truth : Bool) (e : Expr)
        → foreign_expr_walker accepts inner wcat sub (ctx_of truth) e ≡ true
        → Sent (deparse_expr inner cat truth e) (IsFor db cat truth e)
    shipped wcat cat sub same truth (const d) h =
        leaf-Shipped db inner cat truth (const d) (literal d) refl (literal-eval db d)
    shipped wcat cat sub same truth (var v) h =
        leaf-Shipped db inner cat truth (var v) (column v) refl (column-eval db v)
    shipped wcat cat sub same truth (param k) h =
        leaf-Shipped db inner cat truth (param k) (outer_value k) refl (outer_value-eval db k)
    shipped wcat cat sub same truth (relabel e) h =
        let (s, sent, means) =
          shipped wcat cat sub same truth e
            (same_ctx accepts inner wcat sub truth e (and_true _ _ h).0) in
        (s, sent, relabel-IsFor db cat truth e s means)
    shipped wcat cat sub same truth (op_expr f es) h =
        Sent-lift (IsForAll db cat false es) (IsFor db cat truth (op_expr f es)) (call_op f) _
          (shipped_all wcat cat sub same false es (and_true _ _ h).0)
          (call_op-IsFor db cat truth f es)
    shipped wcat cat sub same truth (other k es) h =
        Sent-lift (IsForAll db cat false es) (IsFor db cat truth (other k es)) (call_other k) _
          (shipped_all wcat cat sub same false es (and_true _ _ h).0)
          (call_other-IsFor db cat truth k es)
    shipped wcat cat sub same truth (bool_expr op es) h =
        Sent-lift (IsForAll db cat truth es) (IsFor db cat truth (bool_expr op es)) (connective op)
          _
          (shipped_all wcat cat sub same truth es
            (same_ctx_all accepts inner wcat sub truth es (and_true _ _ h).0))
          (connective-IsFor db cat truth op es)
    shipped wcat cat sub same truth (is_null_test e) h =
        Sent-lift (IsFor db cat false e) (IsFor db cat truth (is_null_test e)) is_null_check _
          (shipped wcat cat sub same false e (and_true _ _ h).0)
          (is_null_check-IsFor db cat truth e)
    shipped wcat cat sub same truth (is_not_null_test e) h =
        Sent-lift (IsFor db cat false e) (IsFor db cat truth (is_not_null_test e)) is_not_null_check
          _ (shipped wcat cat sub same false e (and_true _ _ h).0)
          (is_not_null_check-IsFor db cat truth e)
    shipped wcat cat sub same truth (array_op use_or op probe a) h =
        let (parts, _) = and_true _ _ h in
        let (equality, operands) = and_true _ _ parts in
        let (first, second) = and_true _ _ operands in
        array_op-Shipped db accepts inner arithmetic rows_ok groups cat truth use_or op probe a
          equality (shipped wcat cat sub same false probe first)
          (shipped_array wcat cat sub same a second)
    shipped wcat cat sub same truth (case_expr conv ws d) h =
        let (parts, _) = and_true _ _ h in
        let (branches, default) = and_true _ _ parts in
        Sent-lift2 (IsForWhens db cat truth ws) (IsFor db cat truth d)
          (IsFor db cat truth (case_expr conv ws d)) case_of _ _
          (shipped_whens wcat cat sub same truth conv ws
            (same_ctx_whens accepts inner wcat sub truth ws branches))
          (Sent-lift (IsFor db cat truth d) (IsFor db cat truth d) (wrapped conv d) _
            (shipped wcat cat sub same truth d (same_ctx accepts inner wcat sub truth d default))
            (wrapped-IsFor db cat truth conv d d))
          (case_of-IsFor db cat truth conv ws d)
    shipped wcat cat sub same true (not_expr e) h =
        let (below, _) = and_true _ _ h in
        elim (Bool-cases (is_guarded_not_in inner cat e)) [
          | inl guarded ↦
              not_in-Shipped db accepts inner arithmetic rows_ok groups cat e guarded
                (shipped_not_in wcat cat sub same e guarded below)
          | inr plain ↦ not-Shipped db accepts inner arithmetic rows_ok groups cat true e plain (
              shipped wcat cat sub same false e
                (exact_walk accepts inner wcat cat sub same e plain below))
        ]
    shipped wcat cat sub same false (not_expr e) h =
        let (below, _) = and_true _ _ h in
        not-Shipped db accepts inner arithmetic rows_ok groups cat false e
          (not_guarded accepts inner wcat cat sub same e below)
          (shipped wcat cat sub same false e below)
    shipped wcat cat sub same truth (subplan exists_sublink id probe quals outs grouped) h =
        let (parts, accepted) = and_true _ _ h in
        let (parts, open_gate) = and_true _ _ parts in
        let (parts, conditions) = and_true _ _ parts in
        let (parts, columns) = and_true _ _ parts in
        exists-Shipped db accepts inner arithmetic rows_ok groups cat id probe quals outs grouped
          (shipped_all (inner id) (within cat (inner id)) true (nested _ _) false outs columns)
          (shipped_all (inner id) (within cat (inner id)) true (nested _ _) true quals conditions)
          truth
    shipped wcat cat sub same truth (subplan expr_sublink id probe quals outs grouped) h =
        let (parts, accepted) = and_true _ _ h in
        let (parts, open_gate) = and_true _ _ parts in
        let (parts, conditions) = and_true _ _ parts in
        let (parts, columns) = and_true _ _ parts in
        expr-Shipped db accepts inner arithmetic rows_ok groups cat id probe quals outs grouped
          (shipped_all (inner id) (within cat (inner id)) true (nested _ _) false outs columns)
          (shipped_all (inner id) (within cat (inner id)) true (nested _ _) true quals conditions)
          truth
    shipped wcat cat sub same truth (subplan any_sublink id probe quals outs grouped) h =
        let (parts, accepted) = and_true _ _ h in
        let (parts, open_gate) = and_true _ _ parts in
        let (parts, conditions) = and_true _ _ parts in
        let (parts, columns) = and_true _ _ parts in
        let (top, left) = and_true _ _ parts in
        any-Shipped db accepts inner arithmetic rows_ok groups cat id probe quals outs grouped
          (shipped_all (inner id) (within cat (inner id)) true (nested _ _) false outs columns)
          (shipped_all (inner id) (within cat (inner id)) true (nested _ _) true quals conditions)
          truth
          (top_gate wcat cat sub truth (λ c. classify_notin_subplan c (inner id) probe outs grouped)
            same top open_gate)
          accepted (shipped wcat cat sub same false probe left)

    shipped_whens :
        (wcat cat : QueryInfo) (sub : Bool)
        → (sub ≡ false → wcat ≡ cat)
        → (truth : Bool) (conv : Option Bytes) (ws : Whens)
        → walk_whens accepts inner wcat sub (ctx_of truth) ws ≡ true
        → Sent (deparse_whens inner cat truth conv ws) (IsForWhens db cat truth ws)
    shipped_whens wcat cat sub same truth conv Tree.end h = (end, refl, end-IsForWhens db cat truth)
    shipped_whens wcat cat sub same truth conv (Tree.case_when c e ws) h =
        let (parts, rest) = and_true _ _ h in
        let (first, result) = and_true _ _ parts in
        Sent-lift3 (IsFor db cat true c) (IsFor db cat truth e) (IsForWhens db cat truth ws)
          (IsForWhens db cat truth (Tree.case_when c e ws)) case_when _ _ _
          (Sent-lift (IsFor db cat true c) (IsFor db cat true c) (condition c) _
            (shipped wcat cat sub same true c first) (condition-IsFor db cat c c))
          (Sent-lift (IsFor db cat truth e) (IsFor db cat truth e) (wrapped conv e) _
            (shipped wcat cat sub same truth e result) (wrapped-IsFor db cat truth conv e e))
          (shipped_whens wcat cat sub same truth conv ws rest)
          (case_when-IsForWhens db cat truth c e ws)

    shipped_not_in :
        (wcat cat : QueryInfo) (sub : Bool)
        → (sub ≡ false → wcat ≡ cat)
        → (e : Expr) → is_guarded_not_in inner cat e ≡ true
        → foreign_expr_walker accepts inner wcat sub ctx_negated e ≡ true
        → Sent (deparse_not_in inner cat e) (IsFor db cat true (not_expr e))
    shipped_not_in wcat cat sub same (const d) g h = absurd cc
    shipped_not_in wcat cat sub same (var v) g h = absurd cc
    shipped_not_in wcat cat sub same (param k) g h = absurd cc
    shipped_not_in wcat cat sub same (relabel e) g h = absurd cc
    shipped_not_in wcat cat sub same (op_expr f es) g h = absurd cc
    shipped_not_in wcat cat sub same (other k es) g h = absurd cc
    shipped_not_in wcat cat sub same (not_expr e) g h = absurd cc
    shipped_not_in wcat cat sub same (bool_expr op es) g h = absurd cc
    shipped_not_in wcat cat sub same (is_null_test e) g h = absurd cc
    shipped_not_in wcat cat sub same (is_not_null_test e) g h = absurd cc
    shipped_not_in wcat cat sub same (array_op use_or op e a) g h = absurd cc
    shipped_not_in wcat cat sub same (case_expr conv ws d) g h = absurd cc
    shipped_not_in wcat cat sub same (subplan exists_sublink id probe quals outs grouped) g h =
        absurd cc
    shipped_not_in wcat cat sub same (subplan expr_sublink id probe quals outs grouped) g h =
        absurd cc
    shipped_not_in wcat cat sub same (subplan any_sublink id probe quals outs grouped) g h =
        let (parts, accepted) = and_true _ _ h in
        let (parts, open_gate) = and_true _ _ parts in
        let (parts, conditions) = and_true _ _ parts in
        let (parts, columns) = and_true _ _ parts in
        let (top, left) = and_true _ _ parts in
        not_any-Shipped db accepts inner arithmetic rows_ok groups cat id probe quals outs grouped
          (shipped_all (inner id) (within cat (inner id)) true (nested _ _) false outs columns)
          (shipped_all (inner id) (within cat (inner id)) true (nested _ _) true quals conditions) g
          (shipped wcat cat sub same false probe left)

    shipped_all :
        (wcat cat : QueryInfo) (sub : Bool)
        → (sub ≡ false → wcat ≡ cat)
        → (truth : Bool) (es : Exprs) → walk_all accepts inner wcat sub (ctx_of truth) es ≡ true
        → Sent (deparse_all inner cat truth es) (IsForAll db cat truth es)
    shipped_all wcat cat sub same truth Tree.nil h = (nil, refl, nil-IsForAll db cat truth)
    shipped_all wcat cat sub same truth (Tree.cons e es) h =
        let (first, rest) = and_true _ _ h in
        Sent-lift2 (IsFor db cat truth e) (IsForAll db cat truth es)
          (IsForAll db cat truth (Tree.cons e es)) cons _ _
          (shipped wcat cat sub same truth e first) (shipped_all wcat cat sub same truth es rest)
          (cons-IsForAll db cat truth e es)

    shipped_array :
        (wcat cat : QueryInfo) (sub : Bool)
        → (sub ≡ false → wcat ≡ cat)
        → (a : ArrayArg) → walk_array accepts inner wcat sub a ≡ true
        → Sent (deparse_array inner cat a) (IsForArray db cat a)
    shipped_array wcat cat sub same (const_array none) h = absurd cc
    shipped_array wcat cat sub same (const_array (some xs)) h =
        (array_literal (some xs), refl, literal-IsForArray db cat xs)
    shipped_array wcat cat sub same (Tree.array_expr multidims es) h =
        Sent-lift (IsForAll db cat false es) (IsForArray db cat (Tree.array_expr multidims es))
          (array_expr multidims) _ (shipped_all wcat cat sub same false es h)
          (array_expr-IsForArray db cat multidims es)
    shipped_array wcat cat sub same (other_array k es) h =
        Sent-lift (IsForAll db cat false es) (IsForArray db cat (other_array k es)) (array_other k)
          _ (shipped_all wcat cat sub same false es h) (array_other-IsForArray db cat k es)

  -- Given that arithmetic has values for values, that the rows of a subquery keep the NOT NULL
  -- constraints of its tables, and that of an accepted subquery with groups a column proved free of
  -- NULL holds none: a condition that the walk accepts for a use of its result is sent without an error,
  -- and on every row that keeps the NOT NULL constraints ClickHouse's answer to the text agrees with
  -- PostgreSQL's answer to the condition: they are the same value, NULL included, or, where only truth
  -- counts, both are true or neither is.
  pub deparse_expr-Agrees :
      (cat : QueryInfo) (truth : Bool) (e : Expr)
      → foreign_expr_walker accepts inner cat false (ctx_of truth) e ≡ true
      → (s : Sql) × (deparse_expr inner cat truth e ≡ some s)
        × ((row : Row) → Respects db cat row → Agrees truth (eval_sql db s row) (eval db e row))
  deparse_expr-Agrees cat truth e h = shipped cat cat false (λ _. refl) truth e h

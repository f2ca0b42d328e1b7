-- ===== src/Deparse/Nulls/Emit.antt =====
-- src/deparse.c: what is sent for a condition (`deparseExpr` and the functions for its nodes). The
-- Boolean argument is `truth_ctx`, whether NULL and FALSE are alike for the one who uses the result.
mod ArrayText
unfoldable pub use ArrayText.{
  is_ok_in_expr, same_bool, match_test, deparse_guarded_array_op, cheap_array_op, is_null_free,
  is_empty, deparse_array_op,
}
use pg_clickhouse.Prelude.{
  ℕ, Bytes, Bool, true, false, not, ◌&&◌, ◌||◌, Option, none, some, [], ◌∷◌, if◌then◌else◌,
}
use pg_clickhouse.Deparse.Nulls.Tree.{
  Var, SubLinkType, exists_sublink, expr_sublink, any_sublink, Expr, const, var, param, relabel,
  op_expr, other, not_expr, bool_expr, is_null_test, is_not_null_test, array_op, case_expr, subplan,
  Exprs, Whens, ArrayArg, const_array, other_array, QueryInfo,
}
use pg_clickhouse.Deparse.Nulls.Tree
use pg_clickhouse.Deparse.Nulls.Proved.{
  expr_never_null, SaopArrayNulls, arr_empty, arr_null_free, arr_unknown, saop_array_nulls,
  NotInShipForm, ship_plain, ship_guarded, ship_none, NotInNullability, notin_prove_nullability,
  classify_notin_subplan,
}
use pg_clickhouse.Deparse.Nulls.Postgres.{chfdw_is_equal_op}
use pg_clickhouse.Deparse.Nulls.Walker.{is_any_sublink}
use pg_clickhouse.Deparse.Nulls.Sql.{
  more, fewer, as_many, Sql, literal, one, keyword, column, outer_value, call_op, call_other,
  negation, connective, both, is_null_check, is_not_null_check, bare_null_check, in_array, has,
  compare, not_empty, parens, case_of, equals_one, convert, exists, scalar, in_select, Sqls, nil,
  cons, SqlWhens, end, case_when, SqlArray, array_literal, array_expr, array_other, number,
  array_length, count_equal, minus, count_parens, Select, select, null_probe,
}

-- `deparseSubPlan`.
unfoldable pub deparse_subplan : SubLinkType → Sql → Select → Sql
deparse_subplan exists_sublink probe body = exists false body
deparse_subplan expr_sublink probe body = scalar body
deparse_subplan any_sublink probe body = parens (in_select false probe body)

-- `deparseSubPlanTargetList`: EXISTS does not look at the columns.
unfoldable pub target_list : SubLinkType → Option Sqls → Option Sqls
target_list exists_sublink columns = some (cons one nil)
target_list expr_sublink columns = columns
target_list any_sublink columns = columns

-- `deparseGuardedNotIn`, with the body of the subquery and its form that asks for NULL.
unfoldable pub deparse_guarded_not_in : NotInNullability → Sql → Select → Select → Sql
deparse_guarded_not_in nulls probe body nullbody =
    let matched = in_select true probe body in
    let guarded =
      if nulls.output_nullable
      then parens (both matched (exists true nullbody))
      else parens matched in
    if nulls.probe_nullable
    then parens
        (case_of (case_when (bare_null_check (parens probe)) (exists true body) end) guarded)
    else guarded

unfoldable pub is_ship_guarded : NotInShipForm → Bool
is_ship_guarded ship_plain = false
is_ship_guarded ship_guarded = true
is_ship_guarded ship_none = false

unfoldable pub is_var : Expr → Bool
is_var (var v) = true
is_var _ = false

unfoldable pub is_null_const : Expr → Bool
is_null_const (const none) = true
is_null_const _ = false

-- `DEPARSE_WRAPPED`.
unfoldable pub wrapped : Option Bytes → Expr → Sql → Sql
unfolding is_null_const
wrapped none e s = s
wrapped (some conv) e s = if is_null_const e then s else convert conv s

unfoldable pub condition : Expr → Sql → Sql
unfolding is_var
condition e s = if is_var e then equals_one s else s

unfoldable pub lift {ℓ κ} : {A : Type ℓ} {B : Type κ} → (A → B) → Option A → Option B
lift f none = none
lift f (some a) = some (f a)

unfoldable pub lift2 {ℓ κ μ} :
    {A : Type ℓ} {B : Type κ} {C : Type μ} → (A → B → C) → Option A → Option B → Option C
unfolding lift
lift2 f none b = none
lift2 f (some a) b = lift (f a) b

unfoldable pub lift3 {ℓ κ μ ν} :
    {A : Type ℓ} {B : Type κ} {C : Type μ} {D : Type ν}
    → (A → B → C → D)
    → Option A
    → Option B
    → Option C
    → Option D
unfolding lift2
lift3 f none b c = none
lift3 f (some a) b c = lift2 (f a) b c

-- An operator that is neither = nor <> is an error.
unfoldable pub when_equality : Option Bool → (Bool → Option Sql) → Option Sql
when_equality none f = none
when_equality (some equal) f = f equal

-- In a subquery the relations that count as scanned are still those of the query around it, as
-- `scanrel` is passed on.
abbrev pub within : QueryInfo → QueryInfo → QueryInfo
within cat sub = record sub { is_scanned = cat.is_scanned }

module _ (inner : ℕ → QueryInfo) where
  -- Whether NOT over this node is the guarded form.
  unfoldable pub is_guarded_not_in : QueryInfo → Expr → Bool
  unfolding is_any_sublink classify_notin_subplan is_ship_guarded
  is_guarded_not_in cat (subplan link id probe quals outs grouped) =
      is_any_sublink link
      && is_ship_guarded (classify_notin_subplan cat (inner id) probe outs grouped)
  is_guarded_not_in cat _ = false

  unfoldable mutual
    unfolding is_guarded_not_in deparse_array_op deparse_subplan deparse_guarded_not_in lift lift2
        lift3

    -- none is an error.
    pub deparse_expr : QueryInfo → Bool → Expr → Option Sql
    deparse_expr cat truth (const d) = some (literal d)
    deparse_expr cat truth (var v) = some (column v)
    deparse_expr cat truth (param k) = some (outer_value k)
    deparse_expr cat truth (relabel e) = deparse_expr cat truth e
    deparse_expr cat truth (op_expr f es) = lift (call_op f) (deparse_all cat false es)
    deparse_expr cat truth (other k es) = lift (call_other k) (deparse_all cat false es)
    deparse_expr cat truth (not_expr e) =
        let native = lift negation (deparse_expr cat false e) in
        let guarded = deparse_not_in cat e in if is_guarded_not_in cat e then guarded else native
    deparse_expr cat truth (bool_expr op es) = lift (connective op) (deparse_all cat truth es)
    deparse_expr cat truth (is_null_test e) = lift is_null_check (deparse_expr cat false e)
    deparse_expr cat truth (is_not_null_test e) = lift is_not_null_check (deparse_expr cat false e)
    deparse_expr cat truth (array_op use_or op probe a) =
        let probesql = deparse_expr cat false probe in
        let arrsql = deparse_array cat a in
        when_equality (chfdw_is_equal_op op)
          (λ equal. lift2 (deparse_array_op cat truth use_or equal probe a) probesql arrsql)
    deparse_expr cat truth (case_expr conv ws d) =
        lift2 case_of (deparse_whens cat truth conv ws)
          (lift (wrapped conv d) (deparse_expr cat truth d))
    deparse_expr cat truth (subplan link id probe quals outs grouped) =
        lift2 (deparse_subplan link)
          (if is_any_sublink link then deparse_expr cat false probe else some (keyword none))
          (lift2 (select id grouped)
            (target_list link (deparse_all (within cat (inner id)) false outs))
            (deparse_all (within cat (inner id)) true quals))

    pub deparse_all : QueryInfo → Bool → Exprs → Option Sqls
    deparse_all cat truth Tree.nil = some nil
    deparse_all cat truth (Tree.cons e es) =
        lift2 cons (deparse_expr cat truth e) (deparse_all cat truth es)

    pub deparse_whens : QueryInfo → Bool → Option Bytes → Whens → Option SqlWhens
    deparse_whens cat truth conv Tree.end = some end
    deparse_whens cat truth conv (Tree.case_when c result ws) =
        lift3 case_when (lift (condition c) (deparse_expr cat true c))
          (lift (wrapped conv result) (deparse_expr cat truth result))
          (deparse_whens cat truth conv ws)

    pub deparse_array : QueryInfo → ArrayArg → Option SqlArray
    deparse_array cat (const_array c) = some (array_literal c)
    deparse_array cat (Tree.array_expr multidims es) =
        lift (array_expr multidims) (deparse_all cat false es)
    deparse_array cat (other_array k es) = lift (array_other k) (deparse_all cat false es)

    -- NOT over `= ANY (SELECT ..)`.
    pub deparse_not_in : QueryInfo → Expr → Option Sql
    deparse_not_in cat (subplan link id probe quals outs grouped) =
        lift3
          (λ s columns conditions.
            deparse_guarded_not_in (notin_prove_nullability cat (inner id) probe outs) s
              (select id grouped columns conditions) (null_probe id grouped columns conditions))
          (deparse_expr cat false probe) (deparse_all (within cat (inner id)) false outs)
          (deparse_all (within cat (inner id)) true quals)
    deparse_not_in cat _ = none

-- ===== src/Deparse/Nulls/Walker.antt =====
-- src/deparse.c, `foreign_expr_walker` and the last gates of `is_shippable_subplan`: which
-- conditions are sent, by how their result is used.
use pg_clickhouse.Prelude.{ℕ, Bool, true, false, not, ◌&&◌, ◌||◌, Option, none, some}
use pg_clickhouse.Deparse.Nulls.Tree.{
  SubLinkType, exists_sublink, expr_sublink, any_sublink, Expr, const, var, param, relabel, op_expr,
  other, not_expr, bool_expr, is_null_test, is_not_null_test, array_op, case_expr, subplan, Exprs,
  nil, cons, Whens, end, case_when, ArrayArg, const_array, array_expr, other_array, QueryInfo,
}
use pg_clickhouse.Deparse.Nulls.Proved.{
  NotInShipForm, ship_plain, ship_guarded, ship_none, classify_notin_subplan,
}
use pg_clickhouse.Deparse.Nulls.Postgres.{chfdw_is_equal_op}

-- `ExprTruthCtx`.
pub data ExprTruthCtx : Type 0 where
  ctx_truth ctx_negated ctx_exact : ExprTruthCtx

-- What a node below NOT gets.
unfoldable pub below_not : ExprTruthCtx → ExprTruthCtx
below_not ctx_truth = ctx_negated
below_not ctx_negated = ctx_exact
below_not ctx_exact = ctx_exact

-- What a node below AND, OR, a relabelling or a result of CASE gets.
unfoldable pub below_same : ExprTruthCtx → ExprTruthCtx
below_same ctx_truth = ctx_truth
below_same ctx_negated = ctx_exact
below_same ctx_exact = ctx_exact

-- The gate on the form of NOT IN.
unfoldable pub admits_form : ExprTruthCtx → NotInShipForm → Bool
admits_form ctx_truth form = true
admits_form ctx_negated ship_plain = true
admits_form ctx_negated ship_guarded = true
admits_form ctx_negated ship_none = false
admits_form ctx_exact ship_plain = true
admits_form ctx_exact ship_guarded = false
admits_form ctx_exact ship_none = false

unfoldable pub is_any_sublink : SubLinkType → Bool
is_any_sublink exists_sublink = false
is_any_sublink expr_sublink = false
is_any_sublink any_sublink = true

unfoldable pub admits_link : SubLinkType → ExprTruthCtx → NotInShipForm → Bool
unfolding admits_form
admits_link exists_sublink ctx form = true
admits_link expr_sublink ctx form = true
admits_link any_sublink ctx form = admits_form ctx form

unfoldable pub is_equality : Option Bool → Bool
is_equality none = false
is_equality (some equal) = true

-- `accepts` stands for the checks on a node by itself, which do not look at how its result is used:
-- its type, its function or operator, the structure of a subquery and the server's version. `inner`
-- describes the subquery with a given number.
module _ (accepts : Expr → Bool) (inner : ℕ → QueryInfo) where
  unfoldable mutual
    unfolding below_not below_same admits_link is_any_sublink is_equality

    -- The second argument is `subquery_scope`. Only ANY has a test, whose left side belongs to the
    -- query around.
    pub foreign_expr_walker : QueryInfo → Bool → ExprTruthCtx → Expr → Bool
    foreign_expr_walker cat sub ctx (const d) = accepts (const d)
    foreign_expr_walker cat sub ctx (var v) = accepts (var v)
    foreign_expr_walker cat sub ctx (param k) = accepts (param k)
    foreign_expr_walker cat sub ctx (relabel e) =
        foreign_expr_walker cat sub (below_same ctx) e && accepts (relabel e)
    foreign_expr_walker cat sub ctx (op_expr f es) =
        walk_all cat sub ctx_exact es && accepts (op_expr f es)
    foreign_expr_walker cat sub ctx (other k es) =
        walk_all cat sub ctx_exact es && accepts (other k es)
    foreign_expr_walker cat sub ctx (not_expr e) =
        foreign_expr_walker cat sub (below_not ctx) e && accepts (not_expr e)
    foreign_expr_walker cat sub ctx (bool_expr op es) =
        walk_all cat sub (below_same ctx) es && accepts (bool_expr op es)
    foreign_expr_walker cat sub ctx (is_null_test e) =
        foreign_expr_walker cat sub ctx_exact e && accepts (is_null_test e)
    foreign_expr_walker cat sub ctx (is_not_null_test e) =
        foreign_expr_walker cat sub ctx_exact e && accepts (is_not_null_test e)
    foreign_expr_walker cat sub ctx (array_op use_or op probe a) =
        is_equality (chfdw_is_equal_op op)
        && (foreign_expr_walker cat sub ctx_exact probe && walk_array cat sub a)
        && accepts (array_op use_or op probe a)
    foreign_expr_walker cat sub ctx (case_expr conv ws d) =
        walk_whens cat sub (below_same ctx) ws
        && foreign_expr_walker cat sub (below_same ctx) d
        && accepts (case_expr conv ws d)
    foreign_expr_walker cat sub ctx (subplan link id probe quals outs grouped) =
        not sub
        && (not (is_any_sublink link) || foreign_expr_walker cat sub ctx_exact probe)
        && walk_all (inner id) true ctx_exact outs
        && walk_all (inner id) true ctx_truth quals
        && admits_link link ctx (classify_notin_subplan cat (inner id) probe outs grouped)
        && accepts (subplan link id probe quals outs grouped)

    pub walk_all : QueryInfo → Bool → ExprTruthCtx → Exprs → Bool
    walk_all cat sub ctx nil = true
    walk_all cat sub ctx (cons e es) = foreign_expr_walker cat sub ctx e && walk_all cat sub ctx es

    pub walk_whens : QueryInfo → Bool → ExprTruthCtx → Whens → Bool
    walk_whens cat sub ctx end = true
    walk_whens cat sub ctx (case_when c result ws) =
        foreign_expr_walker cat sub ctx_truth c
        && foreign_expr_walker cat sub ctx result
        && walk_whens cat sub ctx ws

    pub walk_array : QueryInfo → Bool → ArrayArg → Bool
    walk_array cat sub (const_array none) = false
    walk_array cat sub (const_array (some xs)) = true
    walk_array cat sub (array_expr multidims es) = walk_all cat sub ctx_exact es
    walk_array cat sub (other_array k es) = walk_all cat sub ctx_exact es

-- ===== src/Deparse/Nulls/Contexts.antt =====
-- src/deparse.c: that `foreign_expr_walker` and `deparseExpr` see the same use of a result, below NOT
-- in particular.
use pg_clickhouse.Prelude.{ℕ, ◌≡◌, refl, sym, subst, Bool, true, false, ◌&&◌, Option, none, some}
use pg_clickhouse.Deparse.Nulls.Tree.{
  SubLinkType, exists_sublink, expr_sublink, any_sublink, Expr, const, var, param, relabel, op_expr,
  other, not_expr, bool_expr, is_null_test, is_not_null_test, array_op, case_expr, subplan,
  QueryInfo,
}
use pg_clickhouse.Deparse.Nulls.Proved.{
  NotInShipForm, ship_plain, ship_guarded, ship_none, classify_notin_subplan,
}
use pg_clickhouse.Deparse.Nulls.Walker.{
  ExprTruthCtx, ctx_truth, ctx_negated, ctx_exact, below_same, admits_form, is_any_sublink,
  admits_link, is_equality, foreign_expr_walker,
}
use pg_clickhouse.Deparse.Nulls.Emit.{is_ship_guarded, is_guarded_not_in}

-- The context of the walker for a value of `truth_ctx`.
abbrev pub ctx_of : Bool → ExprTruthCtx
ctx_of true = ctx_truth
ctx_of false = ctx_exact

pub below_same-ctx_of : (truth : Bool) → below_same (ctx_of truth) ≡ ctx_of truth
unfolding below_same
below_same-ctx_of true = refl
below_same-ctx_of false = refl

pub is_equality-some : (o : Option Bool) → is_equality o ≡ true → (equal : Bool) × (o ≡ some equal)
unfolding is_equality
is_equality-some none h = absurd cc
is_equality-some (some equal) h = (equal, refl)

admits_link-negated :
    (link : SubLinkType) (form : NotInShipForm)
    → (is_any_sublink link && is_ship_guarded form) ≡ false
    → admits_link link ctx_negated form ≡ admits_link link ctx_exact form
unfolding admits_link admits_form is_any_sublink is_ship_guarded
admits_link-negated exists_sublink form h = refl
admits_link-negated expr_sublink form h = refl
admits_link-negated any_sublink ship_plain h = refl
admits_link-negated any_sublink ship_guarded h = absurd cc
admits_link-negated any_sublink ship_none h = refl

admits_link-guarded :
    (link : SubLinkType) (form : NotInShipForm)
    → (is_any_sublink link && is_ship_guarded form) ≡ true
    → admits_link link ctx_exact form ≡ false
unfolding admits_link admits_form is_any_sublink is_ship_guarded
admits_link-guarded exists_sublink form h = absurd cc
admits_link-guarded expr_sublink form h = absurd cc
admits_link-guarded any_sublink ship_plain h = absurd cc
admits_link-guarded any_sublink ship_guarded h = refl
admits_link-guarded any_sublink ship_none h = absurd cc

pub admits_link-plain :
    (form : NotInShipForm) → admits_link any_sublink ctx_exact form ≡ true → form ≡ ship_plain
unfolding admits_link admits_form
admits_link-plain ship_plain h = refl
admits_link-plain ship_guarded h = absurd cc
admits_link-plain ship_none h = absurd cc

module _ (accepts : Expr → Bool) (inner : ℕ → QueryInfo) (cat : QueryInfo) where
  -- Directly below NOT every node but a guarded subquery is walked as in an exact context.
  pub foreign_expr_walker-negated :
      (sub : Bool) (e : Expr)
      → (sub ≡ false → is_guarded_not_in inner cat e ≡ false)
      → foreign_expr_walker accepts inner cat sub ctx_negated e
        ≡ foreign_expr_walker accepts inner cat sub ctx_exact e
  unfolding foreign_expr_walker is_guarded_not_in
  foreign_expr_walker-negated sub (const d) h = refl
  foreign_expr_walker-negated sub (var v) h = refl
  foreign_expr_walker-negated sub (param k) h = refl
  foreign_expr_walker-negated sub (relabel e) h = refl
  foreign_expr_walker-negated sub (op_expr f es) h = refl
  foreign_expr_walker-negated sub (other k es) h = refl
  foreign_expr_walker-negated sub (not_expr e) h = refl
  foreign_expr_walker-negated sub (bool_expr op es) h = refl
  foreign_expr_walker-negated sub (is_null_test e) h = refl
  foreign_expr_walker-negated sub (is_not_null_test e) h = refl
  foreign_expr_walker-negated sub (array_op use_or op e a) h = refl
  foreign_expr_walker-negated sub (case_expr conv ws d) h = refl
  foreign_expr_walker-negated true (subplan link id probe quals outs grouped) h = refl
  foreign_expr_walker-negated false (subplan link id probe quals outs grouped) h =
      rw
        (admits_link-negated link (classify_notin_subplan cat (inner id) probe outs grouped)
          (h refl))
        refl

  and_false : (a b : Bool) → ((a && false) && b) ≡ false
  and_false true b = refl
  and_false false b = refl

  -- In an exact context a subquery that would want the guarded form stays local.
  pub foreign_expr_walker-guarded :
      (cat' : QueryInfo) (sub : Bool)
      → (sub ≡ false → cat ≡ cat')
      → (e : Expr) → is_guarded_not_in inner cat' e ≡ true
      → foreign_expr_walker accepts inner cat sub ctx_exact e ≡ false
  unfolding foreign_expr_walker is_guarded_not_in
  foreign_expr_walker-guarded cat' sub same (const d) h = absurd cc
  foreign_expr_walker-guarded cat' sub same (var v) h = absurd cc
  foreign_expr_walker-guarded cat' sub same (param k) h = absurd cc
  foreign_expr_walker-guarded cat' sub same (relabel e) h = absurd cc
  foreign_expr_walker-guarded cat' sub same (op_expr f es) h = absurd cc
  foreign_expr_walker-guarded cat' sub same (other k es) h = absurd cc
  foreign_expr_walker-guarded cat' sub same (not_expr e) h = absurd cc
  foreign_expr_walker-guarded cat' sub same (bool_expr op es) h = absurd cc
  foreign_expr_walker-guarded cat' sub same (is_null_test e) h = absurd cc
  foreign_expr_walker-guarded cat' sub same (is_not_null_test e) h = absurd cc
  foreign_expr_walker-guarded cat' sub same (array_op use_or op e a) h = absurd cc
  foreign_expr_walker-guarded cat' sub same (case_expr conv ws d) h = absurd cc
  foreign_expr_walker-guarded cat' true same (subplan link id probe quals outs grouped) h = refl
  foreign_expr_walker-guarded cat' false same (subplan link id probe quals outs grouped) h =
      rw
        (admits_link-guarded link (classify_notin_subplan cat (inner id) probe outs grouped) (
          subst
            (λ c.
              (is_any_sublink link
                && is_ship_guarded (classify_notin_subplan c (inner id) probe outs grouped))
              ≡ true)
            (sym (same refl)) h))
        (and_false _ _)

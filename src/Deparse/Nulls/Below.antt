-- ===== src/Deparse/Nulls/Below.antt =====
-- src/deparse.c: what the walk of a node says of the walk of its operands.
use pg_clickhouse.Prelude.{
  ℕ, ◌≡◌, sym, subst, ◌∙◌, Bool, true, false, not, not-true, Bool-cases, inl, inr,
}
use pg_clickhouse.Deparse.Nulls.Tree.{any_sublink, Expr, Exprs, Whens, QueryInfo}
use pg_clickhouse.Deparse.Nulls.Proved.{NotInShipForm}
use pg_clickhouse.Deparse.Nulls.Walker.{
  ctx_negated, ctx_exact, below_same, admits_link, foreign_expr_walker, walk_all, walk_whens,
}
use pg_clickhouse.Deparse.Nulls.Contexts.{
  ctx_of, below_same-ctx_of, foreign_expr_walker-negated, foreign_expr_walker-guarded,
}
use pg_clickhouse.Deparse.Nulls.Emit.{is_guarded_not_in}

pub nested : (a b : QueryInfo) → true ≡ false → a ≡ b
nested a b h = absurd cc

pub top_gate :
    (wcat cat : QueryInfo) (sub truth : Bool) (form : QueryInfo → NotInShipForm)
    → (sub ≡ false → wcat ≡ cat)
    → not sub ≡ true
    → admits_link any_sublink (ctx_of truth) (form wcat) ≡ true
    → admits_link any_sublink (ctx_of truth) (form cat) ≡ true
top_gate wcat cat sub truth form same top h =
    subst (λ c. admits_link any_sublink (ctx_of truth) (form c) ≡ true) (same (not-true sub top)) h

module _ (accepts : Expr → Bool) (inner : ℕ → QueryInfo) where
  pub same_ctx :
      (cat : QueryInfo) (sub truth : Bool) (e : Expr)
      → foreign_expr_walker accepts inner cat sub (below_same (ctx_of truth)) e ≡ true
      → foreign_expr_walker accepts inner cat sub (ctx_of truth) e ≡ true
  same_ctx cat sub truth e h =
      subst (λ c. foreign_expr_walker accepts inner cat sub c e ≡ true) (below_same-ctx_of truth) h

  pub same_ctx_all :
      (cat : QueryInfo) (sub truth : Bool) (es : Exprs)
      → walk_all accepts inner cat sub (below_same (ctx_of truth)) es ≡ true
      → walk_all accepts inner cat sub (ctx_of truth) es ≡ true
  same_ctx_all cat sub truth es h =
      subst (λ c. walk_all accepts inner cat sub c es ≡ true) (below_same-ctx_of truth) h

  pub same_ctx_whens :
      (cat : QueryInfo) (sub truth : Bool) (ws : Whens)
      → walk_whens accepts inner cat sub (below_same (ctx_of truth)) ws ≡ true
      → walk_whens accepts inner cat sub (ctx_of truth) ws ≡ true
  same_ctx_whens cat sub truth ws h =
      subst (λ c. walk_whens accepts inner cat sub c ws ≡ true) (below_same-ctx_of truth) h

  -- What was walked below NOT may be sent as in an exact context, unless it has the guarded form.
  pub exact_walk :
      (wcat cat : QueryInfo) (sub : Bool)
      → (sub ≡ false → wcat ≡ cat)
      → (e : Expr) → is_guarded_not_in inner cat e ≡ false
      → foreign_expr_walker accepts inner wcat sub ctx_negated e ≡ true
      → foreign_expr_walker accepts inner wcat sub ctx_exact e ≡ true
  exact_walk wcat cat sub same e plain h =
      sym (
        foreign_expr_walker-negated accepts inner wcat sub e
          (λ top. subst (λ c. is_guarded_not_in inner c e ≡ false) (sym (same top)) plain))
      ∙ h

  pub not_guarded :
      (wcat cat : QueryInfo) (sub : Bool)
      → (sub ≡ false → wcat ≡ cat)
      → (e : Expr) → foreign_expr_walker accepts inner wcat sub ctx_exact e ≡ true
      → is_guarded_not_in inner cat e ≡ false
  not_guarded wcat cat sub same e h = elim (Bool-cases (is_guarded_not_in inner cat e)) [
    | inl guarded ↦
        absurd (
          true-false
            (sym h ∙ foreign_expr_walker-guarded accepts inner wcat cat sub same e guarded))
    | inr plain ↦ plain
  ]
    where
      true-false : ¬ (true ≡ false)
      true-false clash = cc

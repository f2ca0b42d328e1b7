-- ===== src/Deparse/Nulls/Subplans.antt =====
-- src/deparse.c: what is sent for a subquery as a node of a condition (`deparseSubPlan`, and
-- `deparseGuardedNotIn` below NOT) agrees with PostgreSQL's answer.
use pg_clickhouse.Prelude.{
  ℕ, ◌≡◌, refl, ap, Bool, true, false, not, ◌&&◌, Option, List, [], ◌∷◌, map, All, if◌then◌else◌,
  not-false,
}
use pg_clickhouse.Deparse.Nulls.Tree.{
  SubLinkType, exists_sublink, expr_sublink, any_sublink, and_expr, Expr, subplan, not_expr, Exprs,
  QueryInfo,
}
use pg_clickhouse.Deparse.Nulls.Tree
use pg_clickhouse.Deparse.Nulls.Values.{
  datum_of, truth_of, is_true, junction, all3, keep, is_nonempty, first_value,
}
use pg_clickhouse.Deparse.Nulls.Proved.{
  expr_never_null, has_null, ship_plain, ship_guarded, ship_none, notin_prove_nullability,
  classify_notin_subplan,
}
use pg_clickhouse.Deparse.Nulls.Postgres.{Database, query_output, eval_all}
use pg_clickhouse.Deparse.Nulls.NeverNull.{Respects, Constrained}
use pg_clickhouse.Deparse.Nulls.Agree.{Agrees, AgreesAll, Agrees-junction}
use pg_clickhouse.Deparse.Nulls.QueryRows.{keep-has_null, query_output-same}
use pg_clickhouse.Deparse.Nulls.Nodes.{IsForAll}
use pg_clickhouse.Deparse.Nulls.Sql.{Sqls, select, null_probe, eval_sqls, eval_select}
use pg_clickhouse.Deparse.Nulls.Emit.{is_ship_guarded, within}

pub prove-probe :
    (outer inner : QueryInfo) (probe : Expr) (outs : Exprs)
    → (notin_prove_nullability outer inner probe outs).probe_nullable ≡ false
    → expr_never_null outer probe ≡ true
unfolding notin_prove_nullability
prove-probe outer inner probe Tree.nil h = absurd cc
prove-probe outer inner probe (Tree.cons out outs) h = not-false _ h

pub prove-output :
    (outer inner : QueryInfo) (probe : Expr) (outs : Exprs)
    → (notin_prove_nullability outer inner probe outs).output_nullable ≡ false
    → (out : Expr) × (more : Exprs) × (outs ≡ Tree.cons out more)
      × (expr_never_null inner out ≡ true)
unfolding notin_prove_nullability
prove-output outer inner probe Tree.nil h = absurd cc
prove-output outer inner probe (Tree.cons out outs) h = (out, outs, refl, not-false _ h)

pub classify-plain :
    (outer inner : QueryInfo) (probe : Expr) (outs : Exprs) (grouped : Bool)
    → classify_notin_subplan outer inner probe outs grouped ≡ ship_plain
    → ((notin_prove_nullability outer inner probe outs).probe_nullable ≡ false)
      × ((notin_prove_nullability outer inner probe outs).output_nullable ≡ false)
unfolding classify_notin_subplan
classify-plain outer inner probe outs grouped h = form _ _ grouped h
  where
    form :
        (a b g : Bool)
        → (if not a && not b then ship_plain else if g then ship_none else ship_guarded)
          ≡ ship_plain
        → (a ≡ false) × (b ≡ false)
    form true b true h = absurd cc
    form true b false h = absurd cc
    form false true true h = absurd cc
    form false true false h = absurd cc
    form false false g h = (refl, refl)

pub classify-guarded :
    (outer inner : QueryInfo) (probe : Expr) (outs : Exprs) (grouped : Bool)
    → is_ship_guarded (classify_notin_subplan outer inner probe outs grouped) ≡ true
    → grouped ≡ false
unfolding classify_notin_subplan is_ship_guarded
classify-guarded outer inner probe outs true h = absurd (
    form
      (not (notin_prove_nullability outer inner probe outs).probe_nullable
        && not (notin_prove_nullability outer inner probe outs).output_nullable)
      h)
  where
    form : (a : Bool) → ¬ (is_ship_guarded (if a then ship_plain else ship_none) ≡ true)
    form true h = cc
    form false h = cc
classify-guarded outer inner probe outs false h = refl

pub All-imp :
    {A : Type 0} (P Q : A → Type 0) (xs : List A) → ((x : A) → P x → Q x) → All P xs → All Q xs
All-imp P Q [] f h = tt
All-imp P Q (x ∷ xs) f (h, hs) = (f x h, All-imp P Q xs f hs)

pub All-keep :
    {A : Type 0} (P : A → Type 0) (p : A → Bool) (xs : List A) → All P xs → All P (keep p xs)
unfolding keep
All-keep P p [] h = tt
All-keep P p (x ∷ xs) (h, hs) = pick (p x) (keep p xs) (All-keep P p xs hs)
  where
    pick : (b : Bool) (more : List _) → All P more → All P (if b then x ∷ more else more)
    pick true more ih = (h, ih)
    pick false more ih = ih

module _ {Row : Type 0} (db : Database Row) (inner : ℕ → QueryInfo) where
  -- The rows of a subquery's FROM keep the NOT NULL constraints.
  abbrev pub RowsConstrained : Type 0
  RowsConstrained = (id : ℕ) (row : Row) → All (Constrained db (inner id)) (db.from_rows id row)

  Respects-within :
      (cat : QueryInfo) (id : ℕ) (r : Row)
      → Constrained db (inner id) r
      → Respects db (within cat (inner id)) r
  Respects-within cat id r h v rel k level scanned joined = h v rel k level joined

  pub Respects-inner : (id : ℕ) (r : Row) → Constrained db (inner id) r → Respects db (inner id) r
  Respects-inner id r h v rel k level scanned joined = h v rel k level joined

  module _ (rows_ok : RowsConstrained) (cat : QueryInfo) (id : ℕ) (quals outs : Exprs)
      (ss qs : Sqls) (outs_for : IsForAll db (within cat (inner id)) false outs ss)
      (quals_for : IsForAll db (within cat (inner id)) true quals qs) where
    unfoldable pub wanted : Row → Bool
    wanted r = is_true (datum_of (junction and_expr (map truth_of (eval_all db quals r))))

    unfoldable pub output : Row → Option ℕ
    output r = first_value (eval_all db outs r)

    same_wanted :
        (r : Row)
        → Constrained db (inner id) r
        → is_true (datum_of (all3 (map truth_of (eval_sqls db qs r)))) ≡ wanted r
    unfolding wanted
    same_wanted r ok =
        let agree : Agrees true (datum_of (junction and_expr (map truth_of (eval_sqls db qs r))))
            (datum_of (junction and_expr (map truth_of (eval_all db quals r)))) =
          Agrees-junction true and_expr _ _ (quals_for r (Respects-within cat id r ok)) in
        unfold Agrees junction in agree

    same_output :
        (r : Row) → Constrained db (inner id) r → first_value (eval_sqls db ss r) ≡ output r
    unfolding output
    same_output r ok =
        let same : AgreesAll false (eval_sqls db ss r) (eval_all db outs r) =
          outs_for r (Respects-within cat id r ok) in
        unfold AgreesAll in ap first_value same

    -- The body that is sent has the output that PostgreSQL computes.
    pub eval_select-query_output :
        (grouped : Bool) (row : Row)
        → eval_select db (select id grouped ss qs) row
          ≡ query_output db id grouped wanted output row
    unfolding eval_select
    eval_select-query_output grouped row =
        query_output-same db id grouped _ wanted _ output row
          (All-imp (Constrained db (inner id)) _ _ same_wanted (rows_ok id row))
          (All-imp (Constrained db (inner id)) _ _ same_output (rows_ok id row))

  -- The form that asks for NULL finds a row exactly when the output holds one.
  pub null_probe-has_null :
      (id : ℕ) (ss qs : Sqls) (row : Row)
      → is_nonempty (eval_select db (null_probe id false ss qs) row)
        ≡ has_null (eval_select db (select id false ss qs) row)
  unfolding eval_select query_output
  null_probe-has_null id ss qs row =
      keep-has_null (λ r. is_true (datum_of (all3 (map truth_of (eval_sqls db qs r)))))
        (λ r. first_value (eval_sqls db ss r)) (db.from_rows id row)

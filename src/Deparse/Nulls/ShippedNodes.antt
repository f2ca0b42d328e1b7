-- ===== src/Deparse/Nulls/ShippedNodes.antt =====
-- src/deparse.c: the nodes whose text is chosen by what is proved, in the form in which the whole
-- of a condition uses them: a comparison with an array, NOT and a subquery.
use pg_clickhouse.Prelude.{
  ℕ, ◌≡◌, refl, subst, Bytes, Bool, true, false, Option, none, some, List, All,
}
use pg_clickhouse.Deparse.Nulls.Tree.{
  SubLinkType, exists_sublink, expr_sublink, any_sublink, Expr, const, var, param, relabel, op_expr,
  other, not_expr, bool_expr, is_null_test, is_not_null_test, array_op, case_expr, subplan, Exprs,
  Whens, ArrayArg, const_array, other_array, QueryInfo,
}
use pg_clickhouse.Deparse.Nulls.Tree
use pg_clickhouse.Deparse.Nulls.Proved.{
  expr_never_null, notin_prove_nullability, classify_notin_subplan,
}
use pg_clickhouse.Deparse.Nulls.Postgres.{Database, chfdw_is_equal_op, eval}
use pg_clickhouse.Deparse.Nulls.NeverNull.{IsValue, IsArithmetic, Constrained}
use pg_clickhouse.Deparse.Nulls.Agree.{Agrees-exact}
use pg_clickhouse.Deparse.Nulls.ArrayOp.{deparse_array_op-Agrees}
use pg_clickhouse.Deparse.Nulls.Subplans.{
  RowsConstrained, classify-plain, classify-guarded, prove-output,
}
use pg_clickhouse.Deparse.Nulls.SubplanNodes.{
  GroupsKeep, exists-IsFor, expr-IsFor, any-IsFor_truth, any-IsFor_exact, guarded_not_in-IsFor,
}
use pg_clickhouse.Deparse.Nulls.Sent.{Sent, Sent-lift3}
use pg_clickhouse.Deparse.Nulls.Nodes.{IsFor, IsForAll, IsForArray, negation-IsFor}
use pg_clickhouse.Deparse.Nulls.Walker.{is_any_sublink, admits_link, is_equality}
use pg_clickhouse.Deparse.Nulls.Contexts.{ctx_of, is_equality-some, admits_link-plain}
use pg_clickhouse.Deparse.Nulls.Sql.{one, nil, cons, Sql, keyword, negation, Sqls, SqlArray, select}
use pg_clickhouse.Deparse.Nulls.Emit.{
  target_list, lift, lift2, when_equality, within, is_guarded_not_in, deparse_array_op,
  deparse_subplan, deparse_expr, deparse_all, deparse_array, deparse_not_in,
}

module _ {Row : Type 0} (db : Database Row) (accepts : Expr → Bool) (inner : ℕ → QueryInfo) where
  -- Of an accepted subquery with groups, a column that is proved free of NULL is free of NULL.
  abbrev pub GroupsConstrained : Type 0
  GroupsConstrained =
      (link : SubLinkType) (id : ℕ) (probe : Expr) (quals : Exprs) (out : Expr) (outs : Exprs)
      → accepts (subplan link id probe quals (Tree.cons out outs) true) ≡ true
      → expr_never_null (inner id) out ≡ true
      → (rows : List Row) → All (Constrained db (inner id)) rows
      → All IsValue (db.grouped_output id rows)

  module _ (arithmetic : IsArithmetic db) (rows_ok : RowsConstrained db inner)
      (groups : GroupsConstrained) where
    -- An error-free text for the node, with its meaning.
    abbrev pub Shipped : QueryInfo → Bool → Expr → Type 0
    Shipped cat truth e = Sent (deparse_expr inner cat truth e) (IsFor db cat truth e)

    abbrev pub ShippedAll : QueryInfo → Bool → Exprs → Type 0
    ShippedAll cat truth es = Sent (deparse_all inner cat truth es) (IsForAll db cat truth es)

    array_op-IsFor :
        (cat : QueryInfo) (truth use_or equal : Bool) (op : Bytes) (probe : Expr) (a : ArrayArg)
        (s : Sql) (arr : SqlArray)
        → chfdw_is_equal_op op ≡ some equal
        → IsFor db cat false probe s
        → IsForArray db cat a arr
        → IsFor db cat truth
            (array_op use_or op probe a)
            (deparse_array_op cat truth use_or equal probe a s arr)
    unfolding eval
    array_op-IsFor cat truth use_or equal op probe a s arr same means means' row ok = rw same (
        deparse_array_op-Agrees db cat row arithmetic ok probe a s arr
          (Agrees-exact _ _ (means row ok)) (means' row ok) truth use_or equal)

    pub array_op-Shipped :
        (cat : QueryInfo) (truth use_or : Bool) (op : Bytes) (probe : Expr) (a : ArrayArg)
        → is_equality (chfdw_is_equal_op op) ≡ true
        → Shipped cat false probe
        → Sent (deparse_array inner cat a) (IsForArray db cat a)
        → Shipped cat truth (array_op use_or op probe a)
    unfolding deparse_expr when_equality lift2 lift
    array_op-Shipped cat truth use_or op probe a h (s, sent, means) (arr, sent', means') =
        let (equal, same) = is_equality-some _ h in
        (
          deparse_array_op cat truth use_or equal probe a s arr,
          rw (same, sent, sent') refl,
          array_op-IsFor cat truth use_or equal op probe a s arr same means means',
        )

    pub not-Shipped :
        (cat : QueryInfo) (truth : Bool) (e : Expr)
        → is_guarded_not_in inner cat e ≡ false
        → Shipped cat false e
        → Shipped cat truth (not_expr e)
    unfolding deparse_expr lift
    not-Shipped cat truth e plain (s, sent, means) =
        (negation s, rw (plain, sent) refl, negation-IsFor db cat truth e s means)

    pub not_in-Shipped :
        (cat : QueryInfo) (e : Expr)
        → is_guarded_not_in inner cat e ≡ true
        → Sent (deparse_not_in inner cat e) (IsFor db cat true (not_expr e))
        → Shipped cat true (not_expr e)
    unfolding deparse_expr
    not_in-Shipped cat e guarded (s, sent, means) = (s, rw (guarded, sent) refl, means)

    module _ (cat : QueryInfo) (id : ℕ) (probe : Expr) (quals outs : Exprs) (grouped : Bool)
        (outs_sent : ShippedAll (within cat (inner id)) false outs)
        (quals_sent : ShippedAll (within cat (inner id)) true quals) where
      body_sent :
          (truth : Bool) (link : SubLinkType) (o : Option Sql) (P : Sql → Type 0)
          → Sent o P
          → ((s : Sql) (ss qs : Sqls)
              → P s
              → IsForAll db (within cat (inner id)) false outs ss
              → IsForAll db (within cat (inner id)) true quals qs
              → IsFor db cat truth
                  (subplan link id probe quals outs grouped)
                  (deparse_subplan link s (select id grouped ss qs)))
          → Sent
              (lift2 (deparse_subplan link) o (
                lift2
                  (select id grouped)
                  (deparse_all inner (within cat (inner id)) false outs)
                  (deparse_all inner (within cat (inner id)) true quals)))
              (IsFor db cat truth (subplan link id probe quals outs grouped))
      unfolding lift2 lift
      body_sent truth link o P (s, sent, means) fits =
          let (ss, sent', means') = outs_sent in
          let (qs, sent'', means'') = quals_sent in
          (
            deparse_subplan link s (select id grouped ss qs),
            rw (sent, sent', sent'') refl,
            fits s ss qs means means' means'',
          )

      pub exists-Shipped :
          (truth : Bool) → Shipped cat truth (subplan exists_sublink id probe quals outs grouped)
      unfolding deparse_expr is_any_sublink target_list lift2 lift
      exists-Shipped truth =
          let (ss, _, ho) = outs_sent in
          let (qs, sent, hq) = quals_sent in
          (
            deparse_subplan exists_sublink (keyword none) (select id grouped (cons one nil) qs),
            rw sent refl,
            exists-IsFor db inner arithmetic rows_ok cat id probe quals outs grouped (keyword none)
                ss qs ho hq truth,
          )

      pub expr-Shipped :
          (truth : Bool) → Shipped cat truth (subplan expr_sublink id probe quals outs grouped)
      unfolding deparse_expr is_any_sublink target_list
      expr-Shipped truth =
          body_sent truth expr_sublink (some (keyword none)) (λ _. Unit) (keyword none, refl, tt)
            (λ s ss qs _ ho hq.
              expr-IsFor db inner arithmetic rows_ok cat id probe quals outs grouped s ss qs ho hq
                truth)

      groups_here :
          accepts (subplan any_sublink id probe quals outs grouped) ≡ true
          → (notin_prove_nullability cat (inner id) probe outs).output_nullable ≡ false
          → grouped ≡ true
          → GroupsKeep db inner arithmetic rows_ok id
      groups_here accepted known has_groups =
          let (out, more, shape, proved) = prove-output cat (inner id) probe outs known in
          groups any_sublink id probe quals out more
            (subst (λ os. accepts (subplan any_sublink id probe quals os true) ≡ true) shape
              (subst (λ g. accepts (subplan any_sublink id probe quals outs g) ≡ true) has_groups
                accepted))
            proved

      pub any-Shipped :
          (truth : Bool)
          → admits_link any_sublink
              (ctx_of truth)
              (classify_notin_subplan cat (inner id) probe outs grouped)
            ≡ true
          → accepts (subplan any_sublink id probe quals outs grouped) ≡ true
          → Shipped cat false probe
          → Shipped cat truth (subplan any_sublink id probe quals outs grouped)
      unfolding deparse_expr is_any_sublink target_list
      any-Shipped true open_gate accepted probe_sent =
          body_sent true any_sublink _ (IsFor db cat false probe) probe_sent (λ s ss qs hp ho hq.
            any-IsFor_truth db inner arithmetic rows_ok cat id probe quals outs grouped s ss qs ho
              hq hp)
      any-Shipped false open_gate accepted probe_sent =
          let plain = admits_link-plain _ open_gate in
          let (_, known) = classify-plain cat (inner id) probe outs grouped plain in
          body_sent false any_sublink _ (IsFor db cat false probe) probe_sent (λ s ss qs hp ho hq.
            any-IsFor_exact db inner arithmetic rows_ok cat id probe quals outs grouped s ss qs ho
              hq hp (groups_here accepted known) plain)

      pub not_any-Shipped :
          is_guarded_not_in inner cat (subplan any_sublink id probe quals outs grouped) ≡ true
          → Shipped cat false probe
          → Sent
              (deparse_not_in inner cat (subplan any_sublink id probe quals outs grouped))
              (IsFor db cat true (not_expr (subplan any_sublink id probe quals outs grouped)))
      unfolding deparse_expr is_guarded_not_in is_any_sublink
      not_any-Shipped guarded probe_sent =
          Sent-lift3 (IsFor db cat false probe) (IsForAll db (within cat (inner id)) false outs)
            (IsForAll db (within cat (inner id)) true quals) _ _ _ _ _ probe_sent outs_sent
            quals_sent
            (λ s ss qs hp ho hq.
              guarded_not_in-IsFor db inner arithmetic rows_ok cat id probe quals outs grouped s ss
                qs ho hq hp (classify-guarded cat (inner id) probe outs grouped guarded))

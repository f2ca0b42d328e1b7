-- ===== src/Deparse/Nulls/Nodes.antt =====
-- src/deparse.c: the functions for the nodes that are not comparisons with an array or a subquery.
-- What is sent for a node agrees with PostgreSQL's answer when what is sent for its operands does.
use pg_clickhouse.Prelude.{
  ℕ, ◌≡◌, refl, ap, sym, ◌∙◌, Bytes, Bool, true, false, not, Option, none, some, List,
  if◌then◌else◌,
}
use pg_clickhouse.Deparse.Nulls.Tree.{
  BoolExprType, and_expr, or_expr, Expr, const, var, param, relabel, op_expr, other, not_expr,
  bool_expr, is_null_test, is_not_null_test, array_op, case_expr, subplan, Exprs, Whens, ArrayArg,
  const_array, other_array, QueryInfo,
}
use pg_clickhouse.Deparse.Nulls.Tree
use pg_clickhouse.Deparse.Nulls.Values.{datum_of, truth_of, is_true, is_null, not3}
use pg_clickhouse.Deparse.Nulls.Postgres.{Database, eval, eval_all, eval_whens, eval_array}
use pg_clickhouse.Deparse.Nulls.NeverNull.{Respects}
use pg_clickhouse.Deparse.Nulls.Agree.{
  Agrees, AgreesAll, Agrees-same, AgreesAll-cons, Agrees-junction, Agrees-if, is_true-truth_of,
}
use pg_clickhouse.Deparse.Nulls.Sql.{
  Sql, call_op, call_other, negation, connective, is_null_check, is_not_null_check, convert,
  equals_one, case_of, Sqls, nil, cons, SqlWhens, end, case_when, SqlArray, array_literal,
  array_expr, array_other, literal_elements, eval_sql, eval_sqls, eval_sql_whens, sql_elements,
}
use pg_clickhouse.Deparse.Nulls.Emit.{is_null_const, is_var, wrapped, condition}

module _ {Row : Type 0} (db : Database Row) (cat : QueryInfo) where
  -- What a text has to do for an expression, on the rows that keep the NOT NULL constraints.
  abbrev pub IsFor : Bool → Expr → Sql → Type 0
  IsFor truth e s =
      (row : Row) → Respects db cat row → Agrees truth (eval_sql db s row) (eval db e row)

  abbrev pub IsForAll : Bool → Exprs → Sqls → Type 0
  IsForAll truth es ss =
      (row : Row) → Respects db cat row → AgreesAll truth (eval_sqls db ss row) (eval_all db es row)

  abbrev pub IsForWhens : Bool → Whens → SqlWhens → Type 0
  IsForWhens truth ws ss =
      (row : Row)
      → Respects db cat row
      → (d d' : Option ℕ) → Agrees truth d d'
      → Agrees truth (eval_sql_whens db ss d row) (eval_whens db ws d' row)

  abbrev pub IsForArray : ArrayArg → SqlArray → Type 0
  IsForArray a arr =
      (row : Row) → Respects db cat row → eval_array db a row ≡ some (sql_elements db arr row)

  pub call_op-IsFor :
      (truth : Bool) (f : Bytes) (es : Exprs) (ss : Sqls)
      → IsForAll false es ss
      → IsFor truth (op_expr f es) (call_op f ss)
  unfolding eval eval_sql AgreesAll
  call_op-IsFor truth f es ss h row ok = Agrees-same truth _ _ (ap (db.call_op f) (h row ok))

  pub call_other-IsFor :
      (truth : Bool) (k : ℕ) (es : Exprs) (ss : Sqls)
      → IsForAll false es ss
      → IsFor truth (other k es) (call_other k ss)
  unfolding eval eval_sql AgreesAll
  call_other-IsFor truth k es ss h row ok = Agrees-same truth _ _ (ap (db.call_other k) (h row ok))

  pub negation-IsFor :
      (truth : Bool) (e : Expr) (s : Sql) → IsFor false e s → IsFor truth (not_expr e) (negation s)
  unfolding eval eval_sql Agrees
  negation-IsFor truth e s h row ok =
      Agrees-same truth _ _ (ap (λ v. datum_of (not3 (truth_of v))) (h row ok))

  pub connective-IsFor :
      (truth : Bool) (op : BoolExprType) (es : Exprs) (ss : Sqls)
      → IsForAll truth es ss
      → IsFor truth (bool_expr op es) (connective op ss)
  unfolding eval eval_sql
  connective-IsFor truth op es ss h row ok = Agrees-junction truth op _ _ (h row ok)

  pub is_null_check-IsFor :
      (truth : Bool) (e : Expr) (s : Sql)
      → IsFor false e s
      → IsFor truth (is_null_test e) (is_null_check s)
  unfolding eval eval_sql Agrees
  is_null_check-IsFor truth e s h row ok =
      Agrees-same truth _ _ (ap (λ v. datum_of (some (is_null v))) (h row ok))

  pub is_not_null_check-IsFor :
      (truth : Bool) (e : Expr) (s : Sql)
      → IsFor false e s
      → IsFor truth (is_not_null_test e) (is_not_null_check s)
  unfolding eval eval_sql Agrees
  is_not_null_check-IsFor truth e s h row ok =
      Agrees-same truth _ _ (ap (λ v. datum_of (some (not (is_null v)))) (h row ok))

  converted : (c : Bytes) (s : Sql) (row : Row) → eval_sql db (convert c s) row ≡ eval_sql db s row
  unfolding eval_sql
  converted c s row = refl

  equals_one-is_true :
      (s : Sql) (row : Row) → is_true (eval_sql db (equals_one s) row) ≡ is_true (eval_sql db s row)
  unfolding eval_sql
  equals_one-is_true s row = is_true-truth_of (eval_sql db s row)

  eval-wrapped :
      (conv : Option Bytes) (e : Expr) (s : Sql) (row : Row)
      → eval_sql db (wrapped conv e s) row ≡ eval_sql db s row
  unfolding wrapped
  eval-wrapped none e s row = refl
  eval-wrapped (some c) e s row = choose (is_null_const e)
    where
      choose : (b : Bool) → eval_sql db (if b then s else convert c s) row ≡ eval_sql db s row
      choose true = refl
      choose false = converted c s row

  pub wrapped-IsFor :
      (truth : Bool) (conv : Option Bytes) (e f : Expr) (s : Sql)
      → IsFor truth e s
      → IsFor truth e (wrapped conv f s)
  wrapped-IsFor truth conv e f s h row ok = rw (eval-wrapped conv f s row) (h row ok)

  eval-condition :
      (e : Expr) (s : Sql) (row : Row)
      → is_true (eval_sql db (condition e s) row) ≡ is_true (eval_sql db s row)
  unfolding condition
  eval-condition e s row = choose (is_var e)
    where
      choose :
          (b : Bool)
          → is_true (eval_sql db (if b then equals_one s else s) row) ≡ is_true (eval_sql db s row)
      choose true = equals_one-is_true s row
      choose false = refl

  pub condition-IsFor : (e f : Expr) (s : Sql) → IsFor true e s → IsFor true e (condition f s)
  unfolding Agrees
  condition-IsFor e f s h row ok = eval-condition f s row ∙ h row ok

  pub case_of-IsFor :
      (truth : Bool) (conv : Option Bytes) (ws : Whens) (d : Expr) (ss : SqlWhens) (s : Sql)
      → IsForWhens truth ws ss
      → IsFor truth d s
      → IsFor truth (case_expr conv ws d) (case_of ss s)
  unfolding eval eval_sql
  case_of-IsFor truth conv ws d ss s hs h row ok = hs row ok _ _ (h row ok)

  pub case_when-IsForWhens :
      (truth : Bool) (c e : Expr) (ws : Whens) (s t : Sql) (ss : SqlWhens)
      → IsFor true c s
      → IsFor truth e t
      → IsForWhens truth ws ss
      → IsForWhens truth (Tree.case_when c e ws) (case_when s t ss)
  unfolding eval eval_sql Agrees
  case_when-IsForWhens truth c e ws s t ss hc he hs row ok d d' default =
      Agrees-if truth _ _ _ _ _ _ (hc row ok) (he row ok) (hs row ok d d' default)

  pub nil-IsForAll : (truth : Bool) → IsForAll truth Tree.nil nil
  unfolding eval eval_sql AgreesAll
  nil-IsForAll true row ok = refl
  nil-IsForAll false row ok = refl

  pub cons-IsForAll :
      (truth : Bool) (e : Expr) (es : Exprs) (s : Sql) (ss : Sqls)
      → IsFor truth e s
      → IsForAll truth es ss
      → IsForAll truth (Tree.cons e es) (cons s ss)
  unfolding eval eval_sql
  cons-IsForAll truth e es s ss h hs row ok = AgreesAll-cons truth _ _ _ _ (h row ok) (hs row ok)

  pub end-IsForWhens : (truth : Bool) → IsForWhens truth Tree.end end
  unfolding eval eval_sql
  end-IsForWhens truth row ok d d' default = default

  pub literal-IsForArray :
      (xs : List (Option ℕ)) → IsForArray (const_array (some xs)) (array_literal (some xs))
  unfolding eval eval_sql literal_elements
  literal-IsForArray xs row ok = refl

  pub array_expr-IsForArray :
      (multidims : Bool) (es : Exprs) (ss : Sqls)
      → IsForAll false es ss
      → IsForArray (Tree.array_expr multidims es) (array_expr multidims ss)
  unfolding eval eval_sql AgreesAll
  array_expr-IsForArray true es ss h row ok = ap (λ xs. some (db.nested_array xs)) (sym (h row ok))
  array_expr-IsForArray false es ss h row ok = ap some (sym (h row ok))

  pub array_other-IsForArray :
      (k : ℕ) (es : Exprs) (ss : Sqls)
      → IsForAll false es ss
      → IsForArray (other_array k es) (array_other k ss)
  unfolding eval eval_sql AgreesAll
  array_other-IsForArray k es ss h row ok = ap (λ xs. some (db.array_of k xs)) (sym (h row ok))

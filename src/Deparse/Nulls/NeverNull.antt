-- ===== src/Deparse/Nulls/NeverNull.antt =====
-- src/deparse.c: what `expr_never_null` and `saop_array_nulls` accept holds no NULL.
use pg_clickhouse.Prelude.{
  ◌||◌, ℕ, ◌≡◌, refl, ap, subst, Bool, true, false, not, Option, none, some, List, [], ◌∷◌, All,
  ◌==◌, and_true, if◌then◌else◌, arith,
}
use pg_clickhouse.Deparse.Nulls.Tree.{
  Attno, system, whole_row, user, Var, Expr, const, var, param, relabel, op_expr, other, not_expr,
  bool_expr, is_null_test, is_not_null_test, array_op, case_expr, subplan, Exprs, nil, cons,
  ArrayArg, const_array, array_expr, other_array, QueryInfo,
}
use pg_clickhouse.Deparse.Nulls.Arithmetic.{
  Arithmetic, function_name, is_non_nullable_op-IsFunctionName,
}
use pg_clickhouse.Deparse.Nulls.Values.{is_null}
use pg_clickhouse.Deparse.Nulls.Proved.{
  attno_not_null, var_never_null, expr_never_null, all_never_null, SaopArrayNulls, arr_empty,
  arr_null_free, arr_unknown, has_null, const_array_nulls, array_expr_nulls, saop_array_nulls,
}
use pg_clickhouse.Deparse.Nulls.Postgres.{Database, eval, eval_all, eval_array}

-- A value that is not NULL.
abbrev pub IsValue : Option ℕ → Type 0
IsValue o = is_null o ≡ false

IsValue-some : (d : ℕ) → IsValue (some d)
unfolding is_null
IsValue-some d = refl

-- The documented behaviour of PostgreSQL's +, - and * on numbers: a value for values (or an error,
-- after which there is no answer at all).
abbrev pub IsArithmetic : {Row : Type 0} → Database Row → Type 0
IsArithmetic db =
    (g : Arithmetic) (xs : List (Option ℕ))
    → All IsValue xs
    → IsValue (db.call_op (function_name g) xs)

-- A row keeps the NOT NULL constraints: a column of a scanned table, not extended by an outer
-- join, has a value when the catalog says so.
abbrev pub Respects : {Row : Type 0} → Database Row → QueryInfo → Row → Type 0
Respects db cat row =
    (v : Var) (rel k : ℕ)
    → v.varlevelsup ≡ 0
    → cat.is_scanned v.varno ≡ true
    → v.nulled ≡ false
    → cat.relid v.varno ≡ some rel
    → v.varattno ≡ user k
    → cat.attnotnull rel k ≡ some true
    → IsValue (db.column row v)

-- A row of a subquery, none of whose tables is extended by an outer join.
abbrev pub Constrained : {Row : Type 0} → Database Row → QueryInfo → Row → Type 0
Constrained db cat row =
    (v : Var) (rel k : ℕ)
    → v.varlevelsup ≡ 0
    → v.nulled ≡ false
    → cat.relid v.varno ≡ some rel
    → v.varattno ≡ user k
    → cat.attnotnull rel k ≡ some true
    → IsValue (db.column row v)

notnull_true : (o : Option Bool) → elim o [ none ↦ false | some b ↦ b ] ≡ true → o ≡ some true
notnull_true none h = absurd cc
notnull_true (some b) h = ap some h

attno_not_null-user :
    (cat : QueryInfo) (r : Option ℕ) (a : Attno)
    → attno_not_null cat r a ≡ true
    → (rel : ℕ) × (k : ℕ) × (r ≡ some rel) × (a ≡ user k) × (cat.attnotnull rel k ≡ some true)
unfolding attno_not_null
attno_not_null-user cat none a h = absurd cc
attno_not_null-user cat (some rel) (system k) h = absurd cc
attno_not_null-user cat (some rel) whole_row h = absurd cc
attno_not_null-user cat (some rel) (user k) h =
    (rel, k, refl, refl, notnull_true (cat.attnotnull rel k) h)

if_false-true : (b c : Bool) → (if b then false else c) ≡ true → (b ≡ false) × (c ≡ true)
if_false-true true c h = absurd cc
if_false-true false c h = (refl, h)

test_scanned : (a : ℕ) (b : Bool) → (not (a == 0) || not b) ≡ false → (a ≡ 0) × (b ≡ true)
test_scanned a b h = ground arith

module _ {Row : Type 0} (db : Database Row) (cat : QueryInfo) (row : Row) where
  var_never_null-IsValue :
      Respects db cat row → (v : Var) → var_never_null cat v ≡ true → IsValue (db.column row v)
  unfolding var_never_null
  var_never_null-IsValue respects v h =
      let (test, h1) = if_false-true _ _ h in
      let (level, scanned) = test_scanned _ _ test in
      let (joined, h2) = if_false-true _ _ h1 in
      let (rel, k, table, attno, notnull) =
        attno_not_null-user cat (cat.relid v.varno) v.varattno h2 in
      respects v rel k level scanned joined table attno notnull

  module _ (arithmetic : IsArithmetic db) (respects : Respects db cat row) where
    mutual
      unfolding expr_never_null eval

      pub IsValue-eval : (e : Expr) → expr_never_null cat e ≡ true → IsValue (eval db e row)
      IsValue-eval (relabel e) h = IsValue-eval e h
      IsValue-eval (const none) h = absurd cc
      IsValue-eval (const (some d)) h = IsValue-some d
      IsValue-eval (var v) h = var_never_null-IsValue respects v h
      IsValue-eval (op_expr f es) h =
          let (listed, operands) = and_true _ _ h in
          let (g, name) = is_non_nullable_op-IsFunctionName f listed in
          subst (λ f. IsValue (db.call_op f (eval_all db es row))) name
            (arithmetic g (eval_all db es row) (All-eval_all es operands))
      IsValue-eval (param k) h = absurd cc
      IsValue-eval (other k es) h = absurd cc
      IsValue-eval (not_expr e) h = absurd cc
      IsValue-eval (bool_expr op es) h = absurd cc
      IsValue-eval (is_null_test e) h = absurd cc
      IsValue-eval (is_not_null_test e) h = absurd cc
      IsValue-eval (array_op use_or op e a) h = absurd cc
      IsValue-eval (case_expr conv ws d) h = absurd cc
      IsValue-eval (subplan link id probe quals outs grouped) h = absurd cc

      pub All-eval_all :
          (es : Exprs) → all_never_null cat es ≡ true → All IsValue (eval_all db es row)
      All-eval_all nil h = tt
      All-eval_all (cons e es) h =
          let (first, rest) = and_true _ _ h in (IsValue-eval e first, All-eval_all es rest)

-- What the class of an array says of its value.
unfoldable pub ArrayIs : SaopArrayNulls → Option (List (Option ℕ)) → Type 0
ArrayIs arr_empty o = o ≡ some []
ArrayIs arr_null_free o = (xs : List (Option ℕ)) × (o ≡ some xs) × All IsValue xs
ArrayIs arr_unknown o = Unit

has_null-All : (xs : List (Option ℕ)) → has_null xs ≡ false → All IsValue xs
unfolding has_null
has_null-All [] h = tt
has_null-All (none ∷ xs) h = absurd cc
has_null-All (some d ∷ xs) h = (IsValue-some d, has_null-All xs h)

if_null_free :
    (b : Bool) (xs : List (Option ℕ))
    → (b ≡ true → All IsValue xs)
    → ArrayIs (if b then arr_null_free else arr_unknown) (some xs)
unfolding ArrayIs
if_null_free true xs h = (xs, refl, h refl)
if_null_free false xs h = tt

if_has_null :
    (b : Bool) (xs : List (Option ℕ))
    → (b ≡ false → All IsValue xs)
    → ArrayIs (if b then arr_unknown else arr_null_free) (some xs)
unfolding ArrayIs
if_has_null true xs h = tt
if_has_null false xs h = (xs, refl, h refl)

ArrayIs-const : (c : Option (List (Option ℕ))) → ArrayIs (const_array_nulls c) c
unfolding const_array_nulls
ArrayIs-const none = unfold ArrayIs in tt
ArrayIs-const (some []) = unfold ArrayIs in refl
ArrayIs-const (some (x ∷ xs)) = if_has_null (has_null (x ∷ xs)) (x ∷ xs) (has_null-All (x ∷ xs))

module _ {Row : Type 0} (db : Database Row) (cat : QueryInfo) (row : Row)
    (arithmetic : IsArithmetic db) (respects : Respects db cat row) where
  ArrayIs-array_expr :
      (multidims : Bool) (es : Exprs)
      → ArrayIs (array_expr_nulls cat multidims es) (eval_array db (array_expr multidims es) row)
  unfolding array_expr_nulls eval
  ArrayIs-array_expr true es = unfold ArrayIs in tt
  ArrayIs-array_expr false nil = unfold ArrayIs in refl
  ArrayIs-array_expr false (cons e es) =
      if_null_free (all_never_null cat (cons e es)) (eval_all db (cons e es) row)
        (All-eval_all db cat row arithmetic respects (cons e es))

  -- An array that `saop_array_nulls` calls empty is the empty array, and the elements of one that
  -- it calls free of NULL are values, on every row that keeps the NOT NULL constraints.
  pub ArrayIs-saop_array_nulls :
      (a : ArrayArg) → ArrayIs (saop_array_nulls cat a) (eval_array db a row)
  unfolding saop_array_nulls
  ArrayIs-saop_array_nulls (const_array c) = unfold eval in ArrayIs-const c
  ArrayIs-saop_array_nulls (array_expr multidims es) = ArrayIs-array_expr multidims es
  ArrayIs-saop_array_nulls (other_array k es) = unfold ArrayIs in tt

  -- An expression that `expr_never_null` accepts has a value, never NULL, on every row that keeps the
  -- NOT NULL constraints, as long as PostgreSQL's arithmetic gives values for values.
  pub expr_never_null-IsValue : (e : Expr) → expr_never_null cat e ≡ true → IsValue (eval db e row)
  expr_never_null-IsValue e h = IsValue-eval db cat row arithmetic respects e h

-- ===== src/Examples/Pushing.antt =====
-- Conditions sent to ClickHouse, on a small database.
use pg_clickhouse.Prelude.{
  str_eq, ℕ, ◌+◌, ◌≡◌, refl, Bytes, codes, Bool, true, false, not, Option, none, some, List, [],
  ◌∷◌, ◌++◌, All, ◌==◌, if◌then◌else◌,
}
use pg_clickhouse.Deparse.Nulls.Tree.{
  Attno, system, whole_row, user, any_sublink, Expr, const, var, other, op_expr, not_expr, array_op,
  subplan, nil, cons, ArrayArg, const_array, QueryInfo,
}
use pg_clickhouse.Deparse.Nulls.Values.{
  is_nonempty, all3, is_true, is_null, keep, first_value, datum_of, not3,
}
use pg_clickhouse.Deparse.Nulls.Postgres.{
  Database, eval, eval_array, exec_array_op, chfdw_is_equal_op,
}
use pg_clickhouse.Deparse.Nulls.Proved.{
  saop_array_nulls, classify_notin_subplan, has_null, expr_never_null,
}
use pg_clickhouse.Deparse.Nulls.Arithmetic.{
  integer, floating, numeric, plus, minus, times, negated_integer, negated_floating,
  negated_numeric, function_name,
}
use pg_clickhouse.Deparse.Nulls.NeverNull.{
  IsValue, IsArithmetic, Respects, Constrained, expr_never_null-IsValue,
}
use pg_clickhouse.Deparse.Nulls.Agree.{Agrees}
use pg_clickhouse.Deparse.Nulls.Walker.{foreign_expr_walker}
use pg_clickhouse.Deparse.Nulls.Contexts.{ctx_of}
use pg_clickhouse.Deparse.Nulls.Sql.{
  Sql, column, array_literal, eval_sql, select, null_probe, eval_select, literal,
}
use pg_clickhouse.Deparse.Nulls.Sql
use pg_clickhouse.Deparse.Nulls.Emit.{
  when_equality, is_null_free, is_empty, deparse_expr, deparse_array_op, deparse_guarded_not_in,
}
use pg_clickhouse.Deparse.Nulls.Subplans.{RowsConstrained}
use pg_clickhouse.Deparse.Nulls.Subquery.{deparse_guarded_not_in-is_true}
use pg_clickhouse.Deparse.Nulls.ArrayOp.{deparse_array_op-Agrees}
use pg_clickhouse.Deparse.Nulls.ShippedNodes.{GroupsConstrained}
use pg_clickhouse.Deparse.Nulls.Shipped.{deparse_expr-Agrees}
use pg_clickhouse.Deparse.Nulls.Print
use pg_clickhouse.Deparse.Nulls.Conditions.{
  classify_conditions, append_conditions, passes, passes_remotely, classify_conditions-keep,
}

-- Rows of two columns, of which the first is NOT NULL.
abbrev TwoColumns : Type 0
TwoColumns = ℕ × Option ℕ

abbrev at_column : Attno → TwoColumns → Option ℕ
at_column (system k) r = none
at_column whole_row r = none
at_column (user k) r = if k == 1 then some r.0 else r.1

abbrev total : List (Option ℕ) → ℕ
total [] = 0
total (none ∷ xs) = total xs
total (some d ∷ xs) = d + total xs

abbrev two_columns : Database TwoColumns
two_columns = record {
  column = λ r v. at_column v.varattno r;
  outer_value = λ r k. r.1;
  same = λ a b. a == b;
  call_op = λ f xs. if str_eq f (codes "json_object_field_text") then none else some (total xs);
  call_other = λ k xs. first_value xs;
  nested_array = λ xs. xs;
  array_of = λ k xs. xs;
  from_rows = λ id r. (5, some 50) ∷ (6, none) ∷ [];
  grouped_output = λ id rows. some 7 ∷ [];
}

abbrev table_info : QueryInfo
table_info = record {
  is_scanned = λ n. n == 1;
  relid = λ n. some n;
  attnotnull = λ rel k. if k == 1 then some true else some false;
}

abbrev refuses_nine : Expr → Bool
refuses_nine (other k es) = not (k == 9)
refuses_nine _ = true

total-IsArithmetic : IsArithmetic two_columns
unfolding is_null function_name str_eq
total-IsArithmetic (integer op a b) xs values = refl
total-IsArithmetic (floating op a b) xs values = refl
total-IsArithmetic (numeric plus) xs values = refl
total-IsArithmetic (numeric minus) xs values = refl
total-IsArithmetic (numeric times) xs values = refl
total-IsArithmetic (negated_integer a) xs values = refl
total-IsArithmetic (negated_floating a) xs values = refl
total-IsArithmetic negated_numeric xs values = refl

first_column : (k : ℕ) → (if k == 1 then some true else some false) ≡ some true → (k == 1) ≡ true
first_column k h = go (k == 1) h
  where
    go : (b : Bool) → (if b then some true else some false) ≡ some true → b ≡ true
    go true e = refl
    go false e = absurd cc

at_column-IsValue :
    (a : Attno) (r : TwoColumns) (k : ℕ) → a ≡ user k → (k == 1) ≡ true → IsValue (at_column a r)
unfolding is_null
at_column-IsValue a r k shape first = rw (shape, first) refl

each-Constrained : (r : TwoColumns) → Constrained two_columns table_info r
each-Constrained r v rel k level joined table attno notnull =
    at_column-IsValue v.varattno r k attno (first_column k notnull)

each-Respects : (r : TwoColumns) → Respects two_columns table_info r
each-Respects r v rel k level scanned joined table attno notnull =
    at_column-IsValue v.varattno r k attno (first_column k notnull)

rows-RowsConstrained : RowsConstrained two_columns (λ id. table_info)
rows-RowsConstrained id row = (each-Constrained (5, some 50), (each-Constrained (6, none), tt))

seven-GroupsConstrained : GroupsConstrained two_columns refuses_nine (λ id. table_info)
unfolding is_null
seven-GroupsConstrained link id probe quals out outs accepted proved rows ok = (refl, tt)

abbrev first_var : Expr
first_var = var (record { varno = 1; varattno = user 1; varlevelsup = 0; nulled = false })

abbrev second_var : Expr
second_var = var (record { varno = 1; varattno = user 2; varlevelsup = 0; nulled = false })

-- `NOT (second = ANY (SELECT second FROM ..))`.
abbrev not_in_select : Expr
not_in_select = not_expr (subplan any_sublink 1 second_var nil (cons second_var nil) false)

-- `second <> ALL ('{50,NULL}')`.
abbrev not_in_array : Expr
not_in_array = array_op false (codes "<>") second_var (const_array (some (some 50 ∷ none ∷ [])))

abbrev three_conditions : List Expr
three_conditions = not_in_select ∷ other 9 (cons first_var nil) ∷ not_in_array ∷ []

classify_three :
    classify_conditions refuses_nine (λ id. table_info) table_info three_conditions
    ≡ (not_in_select ∷ not_in_array ∷ [], other 9 (cons first_var nil) ∷ [])
unfolding classify_conditions classify_notin_subplan chfdw_is_equal_op
classify_three = refl

classify_conditions-keep_example :
    (ss : List Sql) × (append_conditions
        (λ id. table_info)
        table_info
        (classify_conditions refuses_nine (λ id. table_info) table_info three_conditions).0
      ≡ some ss)
    × ((rows : List TwoColumns)
        → All (Respects two_columns table_info) rows
        → keep
            (passes two_columns
              (classify_conditions refuses_nine (λ id. table_info) table_info three_conditions).1)
            (keep (passes_remotely two_columns ss) rows)
          ≡ keep (passes two_columns three_conditions) rows)
classify_conditions-keep_example =
    classify_conditions-keep two_columns refuses_nine (λ id. table_info) total-IsArithmetic
      rows-RowsConstrained seven-GroupsConstrained table_info three_conditions

not_in_select-walk :
    foreign_expr_walker refuses_nine (λ id. table_info) table_info false (ctx_of true) not_in_select
    ≡ true
unfolding foreign_expr_walker classify_notin_subplan
not_in_select-walk = refl

deparse_expr-Agrees_example :
    (s : Sql) × (deparse_expr (λ id. table_info) table_info true not_in_select ≡ some s)
    × ((row : TwoColumns)
        → Respects two_columns table_info row
        → Agrees true (eval_sql two_columns s row) (eval two_columns not_in_select row))
deparse_expr-Agrees_example =
    deparse_expr-Agrees two_columns refuses_nine (λ id. table_info) total-IsArithmetic
      rows-RowsConstrained seven-GroupsConstrained table_info true not_in_select not_in_select-walk

abbrev fifty_and_null : ArrayArg
fifty_and_null = const_array (some (some 50 ∷ none ∷ []))

abbrev second_text : Sql
second_text = column (record { varno = 1; varattno = user 2; varlevelsup = 0; nulled = false })

second_text-same :
    eval_sql two_columns second_text (4, some 3) ≡ eval two_columns second_var (4, some 3)
unfolding eval eval_sql
second_text-same = refl

fifty_and_null-same :
    eval_array two_columns fifty_and_null (4, some 3)
    ≡ some (Sql.sql_elements two_columns (array_literal (some (some 50 ∷ none ∷ []))) (4, some 3))
unfolding eval_array Sql.sql_elements
fifty_and_null-same = refl

deparse_array_op-Agrees_example :
    Agrees false
      (eval_sql two_columns
        (deparse_array_op table_info false false false second_var fifty_and_null second_text
          (array_literal (some (some 50 ∷ none ∷ []))))
        (4, some 3))
      (datum_of (
        exec_array_op two_columns.same false
          (some false)
          (eval two_columns second_var (4, some 3))
          (eval_array two_columns fifty_and_null (4, some 3))))
deparse_array_op-Agrees_example =
    deparse_array_op-Agrees two_columns table_info (4, some 3) total-IsArithmetic
      (each-Respects (4, some 3)) second_var fifty_and_null second_text
      (array_literal (some (some 50 ∷ none ∷ []))) second_text-same fifty_and_null-same false false
      false

abbrev second_select : Sql.Select
second_select = select 1 false (Sql.cons second_text Sql.nil) Sql.nil

abbrev second_null_probe : Sql.Select
second_null_probe = null_probe 1 false (Sql.cons second_text Sql.nil) Sql.nil

second_null_probe-has_null :
    is_nonempty (eval_select two_columns second_null_probe (4, some 3))
    ≡ has_null (eval_select two_columns second_select (4, some 3))
unfolding eval_select has_null is_nonempty is_null is_true first_value datum_of all3
second_null_probe-has_null = refl

unproved : (P : Type 0) → true ≡ false → P
unproved P h = absurd cc

deparse_guarded_not_in-is_true_example :
    is_true (
      eval_sql two_columns
        (deparse_guarded_not_in
          (record { probe_nullable = true; output_nullable = true })
          second_text
          second_select
          second_null_probe)
        (4, some 3))
    ≡ is_true (
        datum_of (
          not3 (
            exec_array_op two_columns.same true
              (some true)
              (eval_sql two_columns second_text (4, some 3))
              (some (eval_select two_columns second_select (4, some 3))))))
deparse_guarded_not_in-is_true_example =
    deparse_guarded_not_in-is_true two_columns (4, some 3) second_text second_select
      second_null_probe second_null_probe-has_null true (unproved _) true (unproved _)

-- `first + 3`.
abbrev first_plus : Expr
first_plus = op_expr (codes "int4pl") (cons first_var (cons (const (some 3)) nil))

first_plus-proved : expr_never_null table_info first_plus ≡ true
unfolding expr_never_null str_eq
first_plus-proved = refl

expr_never_null-IsValue_example : IsValue (eval two_columns first_plus (4, none))
expr_never_null-IsValue_example =
    expr_never_null-IsValue two_columns table_info (4, none) total-IsArithmetic
      (each-Respects (4, none)) first_plus first_plus-proved

abbrev plain_texts : Print.Texts
plain_texts = record {
  of_literal = λ d. codes "?";
  of_array = λ xs. codes "[50,NULL]";
  of_tuple = λ xs. codes "(50,NULL)";
  of_column = λ v. codes "c2";
  of_outer = λ k. codes "o";
  of_op = λ f xs. f;
  of_other = λ k xs. codes "f()";
  of_array_expr = λ b xs. codes "[]";
  of_other_array = λ k xs. codes "a";
  of_number = λ n. codes "0";
  of_from = λ id. codes "t q1_1";
  of_groups = λ id. [];
}

printed : Option Sql → Bytes
printed none = []
printed (some s) = Print.print plain_texts s

-- The texts of the two conditions above.
print_not_in_select :
    printed (deparse_expr (λ id. table_info) table_info true not_in_select)
    ≡ codes "(CASE WHEN (c2) IS NULL THEN NOT EXISTS (SELECT c2 FROM t q1_1) ELSE "
      ++ codes "(c2 NOT IN (SELECT c2 FROM t q1_1) AND NOT EXISTS (SELECT 1 FROM t q1_1"
      ++ codes " WHERE (c2 IS NULL))) END)"
unfolding printed Print.print deparse_expr Print.first_text
print_not_in_select = refl

print_not_in_array :
    printed (deparse_expr (λ id. table_info) table_info true not_in_array)
    ≡ codes "(CASE WHEN c2 IS NULL AND notEmpty([50,NULL]) THEN NULL"
      ++ codes " WHEN countEqual([50,NULL], c2) > 0 THEN false"
      ++ codes " WHEN countEqual([50,NULL], NULL) > 0 THEN NULL ELSE true END)"
unfolding printed Print.print deparse_expr when_equality chfdw_is_equal_op is_null_free
    saop_array_nulls is_empty Print.text_of_relation
print_not_in_array = refl

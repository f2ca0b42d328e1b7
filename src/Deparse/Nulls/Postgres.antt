-- ===== src/Deparse/Nulls/Postgres.antt =====
-- What PostgreSQL answers for an expression. The rows, and the values of functions and operators,
-- come from the database; what is written out is the logic of three values.
use pg_clickhouse.Prelude.{
  ℕ, Bytes, Bool, true, false, not, Option, none, some, List, [], ◌∷◌, map, ◌==◌, if◌then◌else◌,
}
use pg_clickhouse.Deparse.Nulls.Tree.{
  Var, SubLinkType, exists_sublink, expr_sublink, any_sublink, BoolExprType, and_expr, or_expr,
  Expr, const, var, param, relabel, op_expr, other, not_expr, bool_expr, is_null_test,
  is_not_null_test, array_op, case_expr, subplan, Exprs, nil, cons, Whens, end, case_when, ArrayArg,
  const_array, array_expr, other_array,
}
use pg_clickhouse.Deparse.Nulls.Values.{
  datum_of, truth_of, is_true, is_null, not3, junction, keep, is_nonempty, first_value,
}

-- A row of a query, and what the servers compute alike: the column of a row, the value that stands
-- for an expression of the query around it, an operator, any other node and an array from the values
-- of their operands, the rows of a subquery's FROM for a row around it, and the output of
-- a subquery with groups or aggregates from the rows that its WHERE keeps. `same` is the operator =
-- on two values.
pub record Database (Row : Type 0) : Type 0 where
  pub column : Row → Var → Option ℕ
  pub outer_value : Row → ℕ → Option ℕ
  pub same : ℕ → ℕ → Bool
  pub call_op : Bytes → List (Option ℕ) → Option ℕ
  pub call_other : ℕ → List (Option ℕ) → Option ℕ
  pub nested_array : List (Option ℕ) → List (Option ℕ)
  pub array_of : ℕ → List (Option ℕ) → List (Option ℕ)
  pub from_rows : ℕ → Row → List Row
  pub grouped_output : ℕ → List Row → List (Option ℕ)

-- `chfdw_is_equal_op` on the operator's name: = gives `true`, a name that starts with <> gives
-- `false`, any other name none.
unfoldable pub chfdw_is_equal_op : Bytes → Option Bool
chfdw_is_equal_op [] = none
chfdw_is_equal_op (a ∷ []) = if a == 61 then some true else none
chfdw_is_equal_op (a ∷ b ∷ name) = if a == 60 then (if b == 62 then some false else none) else none

-- = and <> of two values, NULL when one of them is NULL; `equal` is whether the operator is =.
unfoldable pub compare3 : (ℕ → ℕ → Bool) → Bool → Option ℕ → Option ℕ → Option Bool
compare3 same equal none y = none
compare3 same equal (some a) none = none
compare3 same true (some a) (some b) = some (same a b)
compare3 same false (some a) (some b) = some (not (same a b))

-- ANY is a disjunction over the elements and ALL a conjunction.
unfoldable pub quantifier : Bool → BoolExprType
quantifier true = or_expr
quantifier false = and_expr

-- NULL for an array that is NULL and for an operator that is neither = nor <>.
unfoldable pub exec_array_op :
    (ℕ → ℕ → Bool) → Bool → Option Bool → Option ℕ → Option (List (Option ℕ)) → Option Bool
unfolding compare3 quantifier
exec_array_op same use_or none probe array = none
exec_array_op same use_or (some equal) probe none = none
exec_array_op same use_or (some equal) probe (some xs) =
    junction (quantifier use_or) (map (compare3 same equal probe) xs)

-- The answer of a subplan from its output.
unfoldable pub exec_subplan : (ℕ → ℕ → Bool) → SubLinkType → Option ℕ → List (Option ℕ) → Option ℕ
unfolding datum_of is_nonempty first_value exec_array_op
exec_subplan same exists_sublink probe outs = datum_of (some (is_nonempty outs))
exec_subplan same expr_sublink probe outs = first_value outs
exec_subplan same any_sublink probe outs =
    datum_of (exec_array_op same true (some true) probe (some outs))

module _ {Row : Type 0} (db : Database Row) where
  -- The output of a subquery: one value for each row that its WHERE keeps, or that of its groups.
  unfoldable pub query_output : ℕ → Bool → (Row → Bool) → (Row → Option ℕ) → Row → List (Option ℕ)
  unfolding keep
  query_output id true wanted out row = db.grouped_output id (keep wanted (db.from_rows id row))
  query_output id false wanted out row = map out (keep wanted (db.from_rows id row))

  unfoldable mutual
    unfolding datum_of truth_of is_true is_null not3 junction exec_array_op exec_subplan
        query_output

    pub eval : Expr → Row → Option ℕ
    eval (const d) row = d
    eval (var v) row = db.column row v
    eval (param k) row = db.outer_value row k
    eval (relabel e) row = eval e row
    eval (op_expr f es) row = db.call_op f (eval_all es row)
    eval (other k es) row = db.call_other k (eval_all es row)
    eval (not_expr e) row = datum_of (not3 (truth_of (eval e row)))
    eval (bool_expr op es) row = datum_of (junction op (map truth_of (eval_all es row)))
    eval (is_null_test e) row = datum_of (some (is_null (eval e row)))
    eval (is_not_null_test e) row = datum_of (some (not (is_null (eval e row))))
    eval (array_op use_or op probe a) row =
        datum_of
          (exec_array_op db.same use_or (chfdw_is_equal_op op) (eval probe row) (eval_array a row))
    eval (case_expr conv ws d) row = eval_whens ws (eval d row) row
    eval (subplan link id probe quals outs grouped) row =
        exec_subplan db.same link (eval probe row) (
          query_output id grouped
            (λ r. is_true (datum_of (junction and_expr (map truth_of (eval_all quals r)))))
            (λ r. first_value (eval_all outs r)) row)

    pub eval_all : Exprs → Row → List (Option ℕ)
    eval_all nil row = []
    eval_all (cons e es) row = eval e row ∷ eval_all es row

    pub eval_whens : Whens → Option ℕ → Row → Option ℕ
    eval_whens end d row = d
    eval_whens (case_when c result ws) d row =
        if is_true (eval c row) then eval result row else eval_whens ws d row

    pub eval_array : ArrayArg → Row → Option (List (Option ℕ))
    eval_array (const_array c) row = c
    eval_array (array_expr true es) row = some (db.nested_array (eval_all es row))
    eval_array (array_expr false es) row = some (eval_all es row)
    eval_array (other_array k es) row = some (db.array_of k (eval_all es row))

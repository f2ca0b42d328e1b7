-- ===== src/Deparse/Nulls/Emit/ArrayText.antt =====
-- src/deparse.c: what is sent for a comparison with an array (`deparseScalarArrayOpExpr` and the
-- functions that it calls).
use pg_clickhouse.Prelude.{Bool, true, false, not, ◌&&◌, ◌||◌, none, some, [], ◌∷◌, if◌then◌else◌}
use pg_clickhouse.Deparse.Nulls.Tree.{
  Var, SubLinkType, exists_sublink, expr_sublink, any_sublink, Expr, const, var, param, relabel,
  op_expr, other, not_expr, bool_expr, is_null_test, is_not_null_test, array_op, case_expr, subplan,
  Exprs, Whens, ArrayArg, const_array, other_array, QueryInfo,
}
use pg_clickhouse.Deparse.Nulls.Tree
use pg_clickhouse.Deparse.Nulls.Proved.{
  expr_never_null, SaopArrayNulls, arr_empty, arr_null_free, arr_unknown, saop_array_nulls,
}
use pg_clickhouse.Deparse.Nulls.Sql.{
  more, fewer, as_many, Sql, keyword, both, bare_null_check, in_array, has, compare, not_empty,
  parens, case_of, end, case_when, SqlArray, number, array_length, count_equal, minus, count_parens,
}

-- `is_ok_in_expr` on the array; a constant that is NULL does not come here.
unfoldable pub is_ok_in_expr : ArrayArg → Bool
is_ok_in_expr (const_array none) = false
is_ok_in_expr (const_array (some [])) = false
is_ok_in_expr (const_array (some (x ∷ xs))) = true
is_ok_in_expr (Tree.array_expr multidims es) = false
is_ok_in_expr (other_array k es) = false

unfoldable pub same_bool : Bool → Bool → Bool
same_bool true b = b
same_bool false b = not b

-- The condition of the second WHEN: `optype != exhaustive_op` compares `=` for ANY and `<>` for ALL.
unfoldable pub match_test : Bool → Bool → Sql → SqlArray → Sql
unfolding same_bool
match_test use_or equal probe a =
    if same_bool equal use_or
    then compare more (count_equal a probe) (number 0)
    else compare more
        (count_parens
          (minus (minus (array_length a) (count_equal a probe)) (count_equal a (keyword none))))
        (number 0)

unfoldable pub deparse_guarded_array_op : Bool → Bool → Sql → SqlArray → Sql
unfolding match_test
deparse_guarded_array_op use_or equal probe a = parens (
    case_of
      (case_when (both (bare_null_check probe) (not_empty a)) (keyword none) (
        case_when (match_test use_or equal probe a) (keyword (some use_or))
          (case_when (compare more (count_equal a (keyword none)) (number 0)) (keyword none) end)))
      (keyword (some (not use_or))))

-- = ANY, <> ANY, = ALL and <> ALL.
unfoldable pub cheap_array_op : Bool → Bool → Sql → SqlArray → Sql
cheap_array_op true true probe a = parens (has a probe)
cheap_array_op true false probe a = parens (compare fewer (count_equal a probe) (array_length a))
cheap_array_op false true probe a = parens (compare as_many (count_equal a probe) (array_length a))
cheap_array_op false false probe a = parens (compare as_many (count_equal a probe) (number 0))

unfoldable pub is_null_free : SaopArrayNulls → Bool
is_null_free arr_empty = false
is_null_free arr_null_free = true
is_null_free arr_unknown = false

unfoldable pub is_empty : SaopArrayNulls → Bool
is_empty arr_empty = true
is_empty arr_null_free = false
is_empty arr_unknown = false

-- `deparseScalarArrayOpExpr` and `deparseAsIn`, from the texts of the probe and the array.
unfoldable pub deparse_array_op :
    QueryInfo → Bool → Bool → Bool → Expr → ArrayArg → Sql → SqlArray → Sql
unfolding cheap_array_op deparse_guarded_array_op
deparse_array_op cat truth use_or equal probe a probesql arrsql =
    let nulls = saop_array_nulls cat a in
    if (is_null_free nulls || (truth && use_or && equal))
      && is_ok_in_expr a
      && same_bool use_or equal
    then parens (in_array (not equal) probesql arrsql)
    else if is_empty nulls || (is_null_free nulls && expr_never_null cat probe)
    then cheap_array_op use_or equal probesql arrsql
    else deparse_guarded_array_op use_or equal probesql arrsql

-- ===== src/Deparse/Nulls/Proved.antt =====
-- src/deparse.c: what is proved at plan time to hold no NULL (`expr_never_null`,
-- `op_expr_never_null`, `saop_array_nulls`, `notin_prove_nullability`, `classify_notin_subplan`).
use pg_clickhouse.Prelude.{
  ℕ, Bytes, codes, str_eq, Bool, true, false, not, ◌&&◌, ◌||◌, Option, none, some, List, [], ◌∷◌,
  ◌==◌, if◌then◌else◌,
}
use pg_clickhouse.Deparse.Nulls.Tree.{
  Attno, system, whole_row, user, Var, Expr, const, var, param, relabel, op_expr, other, not_expr,
  bool_expr, is_null_test, is_not_null_test, array_op, case_expr, subplan, Exprs, nil, cons,
  ArrayArg, const_array, array_expr, other_array, QueryInfo,
}

-- The functions that implement +, -, * and unary - on PostgreSQL's numbers.
abbrev pub never_null_opfuncs : List Bytes
never_null_opfuncs =
    codes "int2pl"
    ∷ codes "int4pl"
    ∷ codes "int8pl"
    ∷ codes "int24pl"
    ∷ codes "int42pl"
    ∷ codes "int28pl"
    ∷ codes "int82pl"
    ∷ codes "int48pl"
    ∷ codes "int84pl"
    ∷ codes "float4pl"
    ∷ codes "float8pl"
    ∷ codes "float48pl"
    ∷ codes "float84pl"
    ∷ codes "numeric_add"
    ∷ codes "int2mi"
    ∷ codes "int4mi"
    ∷ codes "int8mi"
    ∷ codes "int24mi"
    ∷ codes "int42mi"
    ∷ codes "int28mi"
    ∷ codes "int82mi"
    ∷ codes "int48mi"
    ∷ codes "int84mi"
    ∷ codes "float4mi"
    ∷ codes "float8mi"
    ∷ codes "float48mi"
    ∷ codes "float84mi"
    ∷ codes "numeric_sub"
    ∷ codes "int2mul"
    ∷ codes "int4mul"
    ∷ codes "int8mul"
    ∷ codes "int24mul"
    ∷ codes "int42mul"
    ∷ codes "int28mul"
    ∷ codes "int82mul"
    ∷ codes "int48mul"
    ∷ codes "int84mul"
    ∷ codes "float4mul"
    ∷ codes "float8mul"
    ∷ codes "float48mul"
    ∷ codes "float84mul"
    ∷ codes "numeric_mul"
    ∷ codes "int2um"
    ∷ codes "int4um"
    ∷ codes "int8um"
    ∷ codes "float4um"
    ∷ codes "float8um"
    ∷ codes "numeric_uminus"
    ∷ []

unfoldable pub is_listed : Bytes → List Bytes → Bool
is_listed f [] = false
is_listed f (g ∷ gs) = str_eq f g || is_listed f gs

-- The search by `bsearch` in the sorted table finds what the table holds.
unfoldable pub is_non_nullable_op : Bytes → Bool
unfolding is_listed
is_non_nullable_op opfuncid = is_listed opfuncid never_null_opfuncs

unfoldable pub attno_not_null : QueryInfo → Option ℕ → Attno → Bool
attno_not_null cat none a = false
attno_not_null cat (some rel) (system k) = false
attno_not_null cat (some rel) whole_row = false
attno_not_null cat (some rel) (user k) = elim (cat.attnotnull rel k) [
  | none ↦ false
  | some notnull ↦ notnull
]

unfoldable pub var_never_null : QueryInfo → Var → Bool
unfolding attno_not_null
var_never_null cat v =
    if not (v.varlevelsup == 0) || not (cat.is_scanned v.varno)
    then false
    else if v.nulled
    then false
    else attno_not_null cat (cat.relid v.varno) v.varattno

module _ (cat : QueryInfo) where
  unfoldable mutual
    unfolding is_non_nullable_op var_never_null

    pub expr_never_null : Expr → Bool
    expr_never_null (relabel e) = expr_never_null e
    expr_never_null (const none) = false
    expr_never_null (const (some d)) = true
    expr_never_null (var v) = var_never_null cat v
    expr_never_null (op_expr f es) = is_non_nullable_op f && all_never_null es
    expr_never_null (param k) = false
    expr_never_null (other k es) = false
    expr_never_null (not_expr e) = false
    expr_never_null (bool_expr op es) = false
    expr_never_null (is_null_test e) = false
    expr_never_null (is_not_null_test e) = false
    expr_never_null (array_op use_or op e a) = false
    expr_never_null (case_expr conv ws d) = false
    expr_never_null (subplan link id probe quals outs grouped) = false

    pub all_never_null : Exprs → Bool
    all_never_null nil = true
    all_never_null (cons e es) = expr_never_null e && all_never_null es

-- `SaopArrayNulls`.
pub data SaopArrayNulls : Type 0 where
  arr_empty arr_null_free arr_unknown : SaopArrayNulls

-- `ARR_HASNULL`.
unfoldable pub has_null : List (Option ℕ) → Bool
has_null [] = false
has_null (none ∷ xs) = true
has_null (some d ∷ xs) = has_null xs

unfoldable pub const_array_nulls : Option (List (Option ℕ)) → SaopArrayNulls
unfolding has_null
const_array_nulls none = arr_unknown
const_array_nulls (some []) = arr_empty
const_array_nulls (some (x ∷ xs)) = if has_null (x ∷ xs) then arr_unknown else arr_null_free

unfoldable pub array_expr_nulls : QueryInfo → Bool → Exprs → SaopArrayNulls
unfolding all_never_null
array_expr_nulls cat true es = arr_unknown
array_expr_nulls cat false nil = arr_empty
array_expr_nulls cat false (cons e es) =
    if all_never_null cat (cons e es) then arr_null_free else arr_unknown

unfoldable pub saop_array_nulls : QueryInfo → ArrayArg → SaopArrayNulls
unfolding const_array_nulls array_expr_nulls
saop_array_nulls cat (const_array c) = const_array_nulls c
saop_array_nulls cat (array_expr multidims es) = array_expr_nulls cat multidims es
saop_array_nulls cat (other_array k es) = arr_unknown

-- `NotInShipForm`.
pub data NotInShipForm : Type 0 where
  ship_plain ship_guarded ship_none : NotInShipForm

-- The two bits of `NotInNullability`.
pub record NotInNullability : Type 0 where
  pub probe_nullable : Bool
  pub output_nullable : Bool

-- `outer` describes the query around the subquery and `inner` the subquery.
unfoldable pub notin_prove_nullability : QueryInfo → QueryInfo → Expr → Exprs → NotInNullability
unfolding expr_never_null
notin_prove_nullability outer inner probe nil = record {
  probe_nullable = true;
  output_nullable = true;
}
notin_prove_nullability outer inner probe (cons out outs) = record {
  probe_nullable = not (expr_never_null outer probe);
  output_nullable = not (expr_never_null inner out);
}

unfoldable pub classify_notin_subplan : QueryInfo → QueryInfo → Expr → Exprs → Bool → NotInShipForm
unfolding notin_prove_nullability
classify_notin_subplan outer inner probe outs grouped =
    let nulls = notin_prove_nullability outer inner probe outs in
    if not nulls.probe_nullable && not nulls.output_nullable
    then ship_plain
    else if grouped
    then ship_none
    else ship_guarded

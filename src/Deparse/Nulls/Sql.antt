-- ===== src/Deparse/Nulls/Sql.antt =====
-- The SQL that src/deparse.c sends for these nodes, as a tree, and what ClickHouse answers for it
-- by its documentation with transform_null_in = 0, which the program sets: IN looks at values only,
-- gives NULL for a probe that is NULL and else 0 or 1; has and countEqual take NULL for a value like
-- any other; CASE takes the first branch whose condition is true.
use pg_clickhouse.Prelude.{
  ℕ, suc, ◌-◌, Bytes, Bool, true, false, not, ◌&&◌, ◌||◌, Option, none, some, List, [], ◌∷◌, map,
  ◌==◌, ltb, length, if◌then◌else◌,
}
use pg_clickhouse.Deparse.Nulls.Tree.{Var, BoolExprType}
use pg_clickhouse.Deparse.Nulls.Values.{
  datum_of, truth_of, is_true, is_null, not3, and3, all3, junction, is_nonempty, first_value,
}
use pg_clickhouse.Deparse.Nulls.Postgres.{Database, query_output}

-- The comparisons of two counts.
pub data Relation : Type 0 where
  more fewer as_many : Relation

mutual
  pub data Sql : Type 0 where
    -- A literal, `true`, `false` or `NULL`, `1`, a column, a column of the query around, an operator and any other node.
    literal : Option ℕ → Sql
    keyword : Option Bool → Sql
    one : Sql
    column : Var → Sql
    outer_value : ℕ → Sql
    call_op : Bytes → Sqls → Sql
    call_other : ℕ → Sqls → Sql
    -- `(NOT s)`, `(s AND s)` or `(s OR s)`, `s AND s`, `(s IS NULL)`, `(s IS NOT NULL)`, `s IS NULL`.
    negation : Sql → Sql
    connective : BoolExprType → Sqls → Sql
    both : Sql → Sql → Sql
    is_null_check : Sql → Sql
    is_not_null_check : Sql → Sql
    bare_null_check : Sql → Sql
    -- `s IN a`, `s NOT IN a`, `has(a, s)`, a comparison of counts, `notEmpty(a)`, `( )` around.
    in_array : Bool → Sql → SqlArray → Sql
    has : SqlArray → Sql → Sql
    compare : Relation → Count → Count → Sql
    not_empty : SqlArray → Sql
    parens : Sql → Sql
    -- `CASE WHEN .. ELSE s END`, `s = 1`, and `toInt32(s)`, which keeps a value of that type.
    case_of : SqlWhens → Sql → Sql
    equals_one : Sql → Sql
    convert : Bytes → Sql → Sql
    -- `EXISTS (q)` or `NOT EXISTS (q)`, `(q)`, `s IN (q)` or `s NOT IN (q)`.
    exists : Bool → Select → Sql
    scalar : Select → Sql
    in_select : Bool → Sql → Select → Sql

  pub data Sqls : Type 0 where
    nil : Sqls
    cons : Sql → Sqls → Sqls

  pub data SqlWhens : Type 0 where
    end : SqlWhens
    case_when : Sql → Sql → SqlWhens → SqlWhens

  pub data SqlArray : Type 0 where
    array_literal : Option (List (Option ℕ)) → SqlArray
    array_expr : Bool → Sqls → SqlArray
    array_other : ℕ → Sqls → SqlArray

  -- A difference is only ever compared by `> 0`, so it may stop at 0.
  pub data Count : Type 0 where
    number : ℕ → Count
    array_length : SqlArray → Count
    count_equal : SqlArray → Sql → Count
    minus : Count → Count → Count
    count_parens : Count → Count

  -- The body of a subquery: its number, whether it has groups, its columns and its conditions. The
  -- other form is `SELECT 1` with the further condition that a column is NULL.
  pub data Select : Type 0 where
    select : ℕ → Bool → Sqls → Sqls → Select
    null_probe : ℕ → Bool → Sqls → Sqls → Select

module _ (same : ℕ → ℕ → Bool) where
  unfoldable pub holds_value : ℕ → List (Option ℕ) → Bool
  holds_value p [] = false
  holds_value p (none ∷ xs) = holds_value p xs
  holds_value p (some x ∷ xs) = same p x || holds_value p xs

  unfoldable pub in_values : Bool → Option ℕ → List (Option ℕ) → Option Bool
  unfolding holds_value
  in_values negated none xs = none
  in_values true (some p) xs = some (not (holds_value p xs))
  in_values false (some p) xs = some (holds_value p xs)

  -- Equality for which NULL is a value.
  unfoldable pub same_or_null : Option ℕ → Option ℕ → Bool
  same_or_null none none = true
  same_or_null none (some b) = false
  same_or_null (some a) none = false
  same_or_null (some a) (some b) = same a b

  unfoldable pub count_same : Option ℕ → List (Option ℕ) → ℕ
  unfolding same_or_null
  count_same p [] = 0
  count_same p (x ∷ xs) = let rest = count_same p xs in if same_or_null p x then suc rest else rest

  unfoldable pub has_same : Option ℕ → List (Option ℕ) → Bool
  unfolding same_or_null
  has_same p [] = false
  has_same p (x ∷ xs) = same_or_null p x || has_same p xs

unfoldable pub relate : Relation → ℕ → ℕ → Bool
relate more a b = ltb b a
relate fewer a b = ltb a b
relate as_many a b = a == b

unfoldable pub negate : Bool → Bool → Bool
negate true b = not b
negate false b = b

-- A literal array that is NULL is not sent: `foreign_expr_walker` keeps it local.
unfoldable pub literal_elements : Option (List (Option ℕ)) → List (Option ℕ)
literal_elements none = []
literal_elements (some xs) = xs

module _ {Row : Type 0} (db : Database Row) where
  unfoldable mutual
    unfolding query_output in_values count_same has_same relate negate literal_elements

    pub eval_sql : Sql → Row → Option ℕ
    eval_sql (literal d) row = d
    eval_sql (keyword b) row = datum_of b
    eval_sql one row = some 1
    eval_sql (column v) row = db.column row v
    eval_sql (outer_value k) row = db.outer_value row k
    eval_sql (call_op f ss) row = db.call_op f (eval_sqls ss row)
    eval_sql (call_other k ss) row = db.call_other k (eval_sqls ss row)
    eval_sql (negation s) row = datum_of (not3 (truth_of (eval_sql s row)))
    eval_sql (connective op ss) row = datum_of (junction op (map truth_of (eval_sqls ss row)))
    eval_sql (both s t) row =
        datum_of (and3 (truth_of (eval_sql s row)) (truth_of (eval_sql t row)))
    eval_sql (is_null_check s) row = datum_of (some (is_null (eval_sql s row)))
    eval_sql (is_not_null_check s) row = datum_of (some (not (is_null (eval_sql s row))))
    eval_sql (bare_null_check s) row = datum_of (some (is_null (eval_sql s row)))
    eval_sql (in_array negated s a) row =
        datum_of (in_values db.same negated (eval_sql s row) (sql_elements a row))
    eval_sql (has a s) row =
        datum_of (some (has_same db.same (eval_sql s row) (sql_elements a row)))
    eval_sql (compare r m n) row = datum_of (some (relate r (eval_count m row) (eval_count n row)))
    eval_sql (not_empty a) row = datum_of (some (is_nonempty (sql_elements a row)))
    eval_sql (parens s) row = eval_sql s row
    eval_sql (case_of ws d) row = eval_sql_whens ws (eval_sql d row) row
    eval_sql (equals_one s) row = datum_of (truth_of (eval_sql s row))
    eval_sql (convert type s) row = eval_sql s row
    eval_sql (exists negated q) row =
        datum_of (some (negate negated (is_nonempty (eval_select q row))))
    eval_sql (scalar q) row = first_value (eval_select q row)
    eval_sql (in_select negated s q) row =
        datum_of (in_values db.same negated (eval_sql s row) (eval_select q row))

    pub eval_sqls : Sqls → Row → List (Option ℕ)
    eval_sqls nil row = []
    eval_sqls (cons s ss) row = eval_sql s row ∷ eval_sqls ss row

    pub eval_sql_whens : SqlWhens → Option ℕ → Row → Option ℕ
    eval_sql_whens end d row = d
    eval_sql_whens (case_when c result ws) d row =
        if is_true (eval_sql c row) then eval_sql result row else eval_sql_whens ws d row

    pub sql_elements : SqlArray → Row → List (Option ℕ)
    sql_elements (array_literal c) row = literal_elements c
    sql_elements (array_expr true ss) row = db.nested_array (eval_sqls ss row)
    sql_elements (array_expr false ss) row = eval_sqls ss row
    sql_elements (array_other k ss) row = db.array_of k (eval_sqls ss row)

    pub eval_count : Count → Row → ℕ
    eval_count (number n) row = n
    eval_count (array_length a) row = length (sql_elements a row)
    eval_count (count_equal a s) row = count_same db.same (eval_sql s row) (sql_elements a row)
    eval_count (minus m n) row = eval_count m row - eval_count n row
    eval_count (count_parens m) row = eval_count m row

    pub eval_select : Select → Row → List (Option ℕ)
    eval_select (select id grouped outs quals) row =
        query_output db id grouped
          (λ r. is_true (datum_of (all3 (map truth_of (eval_sqls quals r)))))
          (λ r. first_value (eval_sqls outs r)) row
    eval_select (null_probe id grouped outs quals) row =
        query_output db id grouped
          (λ r.
            is_true (datum_of (all3 (map truth_of (eval_sqls quals r))))
            && is_null (first_value (eval_sqls outs r)))
          (λ r. some 1) row

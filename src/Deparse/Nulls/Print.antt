-- ===== src/Deparse/Nulls/Print.antt =====
-- src/deparse.c: the characters of the SQL, as the functions append them to the buffer.
use pg_clickhouse.Prelude.{
  ℕ, Bytes, codes, Bool, true, false, Option, some, none, List, [], ◌∷◌, ◌++◌,
}
use pg_clickhouse.Deparse.Nulls.Tree.{Var, BoolExprType, and_expr, or_expr}
use pg_clickhouse.Deparse.Nulls.Sql.{
  Relation, more, fewer, as_many, Sql, literal, keyword, one, column, outer_value, call_op,
  call_other, negation, connective, both, is_null_check, is_not_null_check, bare_null_check,
  in_array, has, compare, not_empty, parens, case_of, equals_one, convert, exists, scalar,
  in_select, Sqls, nil, cons, SqlWhens, end, case_when, SqlArray, array_literal, array_expr,
  array_other, Count, number, array_length, count_equal, minus, count_parens, Select, select,
  null_probe,
}

-- The texts that other functions of the file append: of literals, as arrays and as tuples, of columns,
-- of operators and other nodes from those of their operands, and of a subquery's FROM and GROUP BY.
pub record Texts : Type 0 where
  pub of_literal : Option ℕ → Bytes
  pub of_array : Option (List (Option ℕ)) → Bytes
  pub of_tuple : Option (List (Option ℕ)) → Bytes
  pub of_column : Var → Bytes
  pub of_outer : ℕ → Bytes
  pub of_op : Bytes → List Bytes → Bytes
  pub of_other : ℕ → List Bytes → Bytes
  pub of_array_expr : Bool → List Bytes → Bytes
  pub of_other_array : ℕ → List Bytes → Bytes
  pub of_number : ℕ → Bytes
  pub of_from : ℕ → Bytes
  pub of_groups : ℕ → Bytes

unfoldable pub text_of_bool : Option Bool → Bytes
text_of_bool none = codes "NULL"
text_of_bool (some true) = codes "true"
text_of_bool (some false) = codes "false"

-- The operator of `deparseBoolExpr`.
unfoldable pub text_of_connective : BoolExprType → Bytes
text_of_connective and_expr = codes " AND "
text_of_connective or_expr = codes " OR "

unfoldable pub text_of_relation : Relation → Bytes
text_of_relation more = codes " > "
text_of_relation fewer = codes " < "
text_of_relation as_many = codes " = "

unfoldable pub text_of_in : Bool → Bytes
text_of_in true = codes " NOT IN "
text_of_in false = codes " IN "

unfoldable pub text_of_exists : Bool → Bytes
text_of_exists true = codes "NOT EXISTS ("
text_of_exists false = codes "EXISTS ("

-- The items with a separator between them.
unfoldable pub separated : Bytes → List Bytes → Bytes
separated sep [] = []
separated sep (x ∷ []) = x
separated sep (x ∷ y ∷ xs) = x ++ sep ++ separated sep (y ∷ xs)

-- Each of `appendConditions` in parentheses.
unfoldable pub parenthesized : List Bytes → List Bytes
parenthesized [] = []
parenthesized (x ∷ xs) = (codes "(" ++ x ++ codes ")") ∷ parenthesized xs

unfoldable pub where_clause : List Bytes → Bytes
unfolding separated parenthesized
where_clause [] = []
where_clause (x ∷ xs) = codes " WHERE " ++ separated (codes " AND ") (parenthesized (x ∷ xs))

-- The further condition of the form that asks for NULL.
unfoldable pub null_clause : List Bytes → Bytes → Bytes
null_clause [] out = codes " WHERE (" ++ out ++ codes " IS NULL)"
null_clause (x ∷ xs) out = codes " AND (" ++ out ++ codes " IS NULL)"

unfoldable pub first_text : List Bytes → Bytes
first_text [] = []
first_text (x ∷ xs) = x

module _ (t : Texts) where
  unfoldable mutual
    unfolding text_of_bool text_of_connective text_of_in text_of_exists separated where_clause
        null_clause

    pub print : Sql → Bytes
    print (literal d) = t.of_literal d
    print (keyword b) = text_of_bool b
    print one = codes "1"
    print (column v) = t.of_column v
    print (outer_value k) = t.of_outer k
    print (call_op f ss) = t.of_op f (print_all ss)
    print (call_other k ss) = t.of_other k (print_all ss)
    print (negation s) = codes "(NOT " ++ print s ++ codes ")"
    print (connective op ss) =
        codes "(" ++ separated (text_of_connective op) (print_all ss) ++ codes ")"
    print (both s u) = print s ++ codes " AND " ++ print u
    print (is_null_check s) = codes "(" ++ print s ++ codes " IS NULL)"
    print (is_not_null_check s) = codes "(" ++ print s ++ codes " IS NOT NULL)"
    print (bare_null_check s) = print s ++ codes " IS NULL"
    print (in_array negated s a) = print s ++ text_of_in negated ++ print_tuple a
    print (has a s) = codes "has(" ++ print_array a ++ codes ", " ++ print s ++ codes ")"
    print (compare r m n) = print_count m ++ text_of_relation r ++ print_count n
    print (not_empty a) = codes "notEmpty(" ++ print_array a ++ codes ")"
    print (parens s) = codes "(" ++ print s ++ codes ")"
    print (case_of ws d) =
        codes "CASE" ++ print_whens ws ++ codes " ELSE " ++ print d ++ codes " END"
    print (equals_one s) = print s ++ codes " = 1"
    print (convert conv s) = conv ++ print s ++ codes ")"
    print (exists negated q) = text_of_exists negated ++ print_select q ++ codes ")"
    print (scalar q) = codes "(" ++ print_select q ++ codes ")"
    print (in_select negated s q) =
        print s ++ text_of_in negated ++ codes "(" ++ print_select q ++ codes ")"

    pub print_all : Sqls → List Bytes
    print_all nil = []
    print_all (cons s ss) = print s ∷ print_all ss

    pub print_whens : SqlWhens → Bytes
    print_whens end = []
    print_whens (case_when c result ws) =
        codes " WHEN " ++ print c ++ codes " THEN " ++ print result ++ print_whens ws

    pub print_array : SqlArray → Bytes
    print_array (array_literal c) = t.of_array c
    print_array (array_expr multidims ss) = t.of_array_expr multidims (print_all ss)
    print_array (array_other k ss) = t.of_other_array k (print_all ss)

    -- `array_as_tuple`, which only a literal looks at.
    pub print_tuple : SqlArray → Bytes
    print_tuple (array_literal c) = t.of_tuple c
    print_tuple (array_expr multidims ss) = t.of_array_expr multidims (print_all ss)
    print_tuple (array_other k ss) = t.of_other_array k (print_all ss)

    pub print_count : Count → Bytes
    print_count (number n) = t.of_number n
    print_count (array_length a) = codes "length(" ++ print_array a ++ codes ")"
    print_count (count_equal a s) =
        codes "countEqual(" ++ print_array a ++ codes ", " ++ print s ++ codes ")"
    print_count (minus m n) = print_count m ++ codes " - " ++ print_count n
    print_count (count_parens m) = codes "(" ++ print_count m ++ codes ")"

    pub print_select : Select → Bytes
    print_select (select id grouped outs quals) =
        codes "SELECT "
        ++ separated (codes ", ") (print_all outs)
        ++ codes " FROM "
        ++ t.of_from id
        ++ where_clause (print_all quals)
        ++ t.of_groups id
    print_select (null_probe id grouped outs quals) =
        codes "SELECT 1 FROM "
        ++ t.of_from id
        ++ where_clause (print_all quals)
        ++ null_clause (print_all quals) (first_text (print_all outs))
        ++ t.of_groups id

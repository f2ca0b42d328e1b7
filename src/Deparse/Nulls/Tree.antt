-- ===== src/Deparse/Nulls/Tree.antt =====
-- The nodes of PostgreSQL's expressions that the rules of src/deparse.c on NULL tell apart, and
-- what the planner knows about them.
use pg_clickhouse.Prelude.{ℕ, Bytes, Bool, Option, List}

-- `Var.varattno`: negative for a system column, 0 for a whole row, positive for a user's column.
pub data Attno : Type 0 where
  system : ℕ → Attno
  whole_row : Attno
  user : ℕ → Attno

-- `nulled` is whether an outer join can extend the column by NULL: from version 16 on whether
-- `varnullingrels` holds a relation, before it whether the query has an outer join at all.
pub record Var : Type 0 where
  pub varno : ℕ
  pub varattno : Attno
  pub varlevelsup : ℕ
  pub nulled : Bool

-- `SubLinkType`, of which `is_shippable_subplan` takes these three.
pub data SubLinkType : Type 0 where
  exists_sublink expr_sublink any_sublink : SubLinkType

-- `BoolExprType`; NOT is a constructor of its own, as it has one argument.
pub data BoolExprType : Type 0 where
  and_expr or_expr : BoolExprType

-- A value is a Datum, which is a number, or NULL. An operator is given by the name of the
-- function that implements it, and for a ScalarArrayOpExpr by its own name. `other` is a node whose
-- operands are all observed: a function, COALESCE, GREATEST, a cast through text, and so on.
-- CASE has no comparison value, its type's conversion when it is an integer, and always a default.
-- A subplan holds its number, the probe of its test, the conditions of its WHERE, its output
-- columns that are not junk and whether it has groups, aggregates or HAVING.
mutual
  pub data Expr : Type 0 where
    const : Option ℕ → Expr
    var : Var → Expr
    param : ℕ → Expr
    relabel : Expr → Expr
    op_expr : Bytes → Exprs → Expr
    other : ℕ → Exprs → Expr
    not_expr : Expr → Expr
    bool_expr : BoolExprType → Exprs → Expr
    is_null_test : Expr → Expr
    is_not_null_test : Expr → Expr
    array_op : Bool → Bytes → Expr → ArrayArg → Expr
    case_expr : Option Bytes → Whens → Expr → Expr
    subplan : SubLinkType → ℕ → Expr → Exprs → Exprs → Bool → Expr

  pub data Exprs : Type 0 where
    nil : Exprs
    cons : Expr → Exprs → Exprs

  pub data Whens : Type 0 where
    end : Whens
    case_when : Expr → Expr → Whens → Whens

  -- The array of a ScalarArrayOpExpr: a constant, `ARRAY[...]` with its mark `multidims`, or any
  -- other expression for an array.
  pub data ArrayArg : Type 0 where
    const_array : Option (List (Option ℕ)) → ArrayArg
    array_expr : Bool → Exprs → ArrayArg
    other_array : ℕ → Exprs → ArrayArg

-- What is known of a query: its relations that are scanned, the table that a relation stands for,
-- and `attnotnull` of a table's column when the catalog has the column.
pub record QueryInfo : Type 0 where
  pub is_scanned : ℕ → Bool
  pub relid : ℕ → Option ℕ
  pub attnotnull : ℕ → ℕ → Option Bool

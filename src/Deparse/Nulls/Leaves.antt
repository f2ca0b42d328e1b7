-- ===== src/Deparse/Nulls/Leaves.antt =====
-- src/deparse.c: the nodes without operands, and a relabelling.
use pg_clickhouse.Prelude.{ℕ, ◌≡◌, refl, Bool, Option, some}
use pg_clickhouse.Deparse.Nulls.Tree.{Var, Expr, const, var, param, relabel, QueryInfo}
use pg_clickhouse.Deparse.Nulls.Postgres.{Database, eval}
use pg_clickhouse.Deparse.Nulls.Agree.{Agrees-same}
use pg_clickhouse.Deparse.Nulls.Sent.{Sent}
use pg_clickhouse.Deparse.Nulls.Nodes.{IsFor}
use pg_clickhouse.Deparse.Nulls.Sql.{Sql, literal, column, outer_value, eval_sql}
use pg_clickhouse.Deparse.Nulls.Emit.{deparse_expr}

module _ {Row : Type 0} (db : Database Row) where
  pub leaf-Shipped :
      (inner : ℕ → QueryInfo) (cat : QueryInfo) (truth : Bool) (e : Expr) (s : Sql)
      → deparse_expr inner cat truth e ≡ some s
      → ((row : Row) → eval_sql db s row ≡ eval db e row)
      → Sent (deparse_expr inner cat truth e) (IsFor db cat truth e)
  leaf-Shipped inner cat truth e s sent same = (s, sent, λ row ok. Agrees-same truth _ _ (same row))

  pub literal-eval :
      (d : Option ℕ) (row : Row) → eval_sql db (literal d) row ≡ eval db (const d) row
  unfolding eval eval_sql
  literal-eval d row = refl

  pub column-eval : (v : Var) (row : Row) → eval_sql db (column v) row ≡ eval db (var v) row
  unfolding eval eval_sql
  column-eval v row = refl

  pub outer_value-eval :
      (k : ℕ) (row : Row) → eval_sql db (outer_value k) row ≡ eval db (param k) row
  unfolding eval eval_sql
  outer_value-eval k row = refl

  pub relabel-IsFor :
      (cat : QueryInfo) (truth : Bool) (e : Expr) (s : Sql)
      → IsFor db cat truth e s
      → IsFor db cat truth (relabel e) s
  unfolding eval
  relabel-IsFor cat truth e s h = h

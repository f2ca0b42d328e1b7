-- ===== src/Deparse/Nulls/Conditions.antt =====
-- src/deparse.c: `chfdw_classify_conditions`, `chfdw_is_foreign_expr` and `appendConditions`: which of
-- a query's conditions ClickHouse checks and which PostgreSQL checks on the rows that come back.
use pg_clickhouse.Prelude.{
  ℕ, ◌≡◌, refl, ap, ◌∙◌, Bool, true, false, not, ◌&&◌, Option, some, List, [], ◌∷◌, All,
  if◌then◌else◌, Bool-cases, inl, inr,
}
use pg_clickhouse.Deparse.Nulls.Tree.{Expr, QueryInfo}
use pg_clickhouse.Deparse.Nulls.Values.{is_true, keep}
use pg_clickhouse.Deparse.Nulls.Postgres.{Database, eval}
use pg_clickhouse.Deparse.Nulls.NeverNull.{IsArithmetic, Respects}
use pg_clickhouse.Deparse.Nulls.Agree.{Agrees}
use pg_clickhouse.Deparse.Nulls.Subplans.{RowsConstrained, All-imp}
use pg_clickhouse.Deparse.Nulls.QueryRows.{keep-same}
use pg_clickhouse.Deparse.Nulls.Sent.{Sent}
use pg_clickhouse.Deparse.Nulls.ShippedNodes.{GroupsConstrained}
use pg_clickhouse.Deparse.Nulls.Shipped.{deparse_expr-Agrees}
use pg_clickhouse.Deparse.Nulls.Walker.{foreign_expr_walker}
use pg_clickhouse.Deparse.Nulls.Contexts.{ctx_of}
use pg_clickhouse.Deparse.Nulls.Sql.{Sql, parens, eval_sql}
use pg_clickhouse.Deparse.Nulls.Emit.{lift, lift2, deparse_expr}

module _ (accepts : Expr → Bool) (inner : ℕ → QueryInfo) (cat : QueryInfo) where
  unfoldable pub is_foreign_expr : Expr → Bool → Bool
  unfolding foreign_expr_walker
  is_foreign_expr e exact_ctx =
      foreign_expr_walker accepts inner cat false (ctx_of (not exact_ctx)) e

  -- The conditions that are sent and those that stay.
  unfoldable pub classify_conditions : List Expr → List Expr × List Expr
  unfolding is_foreign_expr
  classify_conditions [] = ([], [])
  classify_conditions (e ∷ es) =
      let (remote, local) = classify_conditions es in
      if is_foreign_expr e false then (e ∷ remote, local) else (remote, e ∷ local)

-- The parts of the conjunction, each in parentheses.
unfoldable pub append_conditions : (ℕ → QueryInfo) → QueryInfo → List Expr → Option (List Sql)
unfolding deparse_expr lift lift2
append_conditions inner cat [] = some []
append_conditions inner cat (e ∷ es) =
    lift2 ◌∷◌ (lift parens (deparse_expr inner cat true e)) (append_conditions inner cat es)

module _ {Row : Type 0} (db : Database Row) where
  -- A row passes conditions that are all true.
  unfoldable pub passes : List Expr → Row → Bool
  unfolding is_true eval
  passes [] row = true
  passes (e ∷ es) row = is_true (eval db e row) && passes es row

  unfoldable pub passes_remotely : List Sql → Row → Bool
  unfolding is_true eval_sql
  passes_remotely [] row = true
  passes_remotely (s ∷ ss) row = is_true (eval_sql db s row) && passes_remotely ss row

module _ {Row : Type 0} where
  keep-keep :
      (p q : Row → Bool) (rows : List Row) → keep q (keep p rows) ≡ keep (λ r. p r && q r) rows
  unfolding keep
  keep-keep p q [] = refl
  keep-keep p q (r ∷ rows) = elim (Bool-cases (p r)) [
    | inl y ↦ rw (y, keep-keep p q rows) refl
    | inr o ↦ rw (o, keep-keep p q rows) refl
  ]

and_swap : (a b c : Bool) → (a && b) && c ≡ a && (b && c)
and_swap true b c = refl
and_swap false b c = refl

and_out : (a b c d : Bool) → b && c ≡ d → b && (a && c) ≡ a && d
and_out true b c d h = h
and_out false true c d h = refl
and_out false false c d h = refl

module _ {Row : Type 0} (db : Database Row) (accepts : Expr → Bool) (inner : ℕ → QueryInfo)
    (arithmetic : IsArithmetic db) (rows_ok : RowsConstrained db inner)
    (groups : GroupsConstrained db accepts inner) (cat : QueryInfo) where
  parens-true :
      (e : Expr) (s : Sql) (ss : List Sql) (es : List Expr) (row : Row)
      → Agrees true (eval_sql db s row) (eval db e row)
      → passes_remotely db ss row ≡ passes db es row
      → passes_remotely db (parens s ∷ ss) row ≡ passes db (e ∷ es) row
  unfolding passes passes_remotely eval_sql Agrees
  parens-true e s ss es row h hs = rw (h, hs) refl

  Passes : List Expr → List Sql → Type 0
  Passes es ss = (row : Row) → Respects db cat row → passes_remotely db ss row ≡ passes db es row

  append_one :
      (e : Expr) (es : List Expr)
      → is_foreign_expr accepts inner cat e false ≡ true
      → Sent (append_conditions inner cat es) (Passes es)
      → Sent (append_conditions inner cat (e ∷ es)) (Passes (e ∷ es))
  unfolding append_conditions is_foreign_expr Passes lift lift2
  append_one e es h (ss, sent', means') =
      let (s, sent, means) =
        deparse_expr-Agrees db accepts inner arithmetic rows_ok groups cat true e h in
      (
        parens s ∷ ss,
        rw (sent, sent') refl,
        λ row ok. parens-true e s ss es row (means row ok) (means' row ok),
      )

  -- What is known of the two lists.
  Splits : List Expr → List Expr × List Expr → Type 0
  Splits es parts =
      Sent (append_conditions inner cat parts.0) (Passes parts.0)
      × ((row : Row) → passes db parts.0 row && passes db parts.1 row ≡ passes db es row)

  split_one :
      (e : Expr) (es : List Expr) (parts : List Expr × List Expr) (foreign : Bool)
      → is_foreign_expr accepts inner cat e false ≡ foreign
      → Splits es parts
      → Splits (e ∷ es) (if foreign then (e ∷ parts.0, parts.1) else (parts.0, e ∷ parts.1))
  unfolding Splits passes
  split_one e es (remote, local) true h (sent, rows) = (
    append_one e remote h sent,
    λ row.
        and_swap (is_true (eval db e row)) (passes db remote row) (passes db local row)
        ∙ ap (λ b. is_true (eval db e row) && b) (rows row),
  )
  split_one e es (remote, local) false h (sent, rows) = (
    sent,
    λ row.
        and_out (is_true (eval db e row)) (passes db remote row) (passes db local row)
          (passes db es row) (rows row),
  )

  no_conditions : Splits [] ([], [])
  unfolding Splits Passes append_conditions passes passes_remotely
  no_conditions = (([], refl, λ row ok. refl), λ row. refl)

  classify-Splits : (es : List Expr) → Splits es (classify_conditions accepts inner cat es)
  unfolding classify_conditions
  classify-Splits [] = no_conditions
  classify-Splits (e ∷ es) =
      split_one e es (classify_conditions accepts inner cat es) _ refl (classify-Splits es)

  keep-split :
      (es : List Expr) (parts : List Expr × List Expr) (ss : List Sql) (rows : List Row)
      → Passes parts.0 ss
      → ((row : Row) → passes db parts.0 row && passes db parts.1 row ≡ passes db es row)
      → All (Respects db cat) rows
      → keep (passes db parts.1) (keep (passes_remotely db ss) rows) ≡ keep (passes db es) rows
  unfolding Passes
  keep-split es parts ss rows means whole ok =
      keep-keep (passes_remotely db ss) (passes db parts.1) rows
      ∙ keep-same _ _ rows (
          All-imp (Respects db cat) _ rows
            (λ row respects. ap (λ b. b && passes db parts.1 row) (means row respects) ∙ whole row)
            ok)

  -- Given that arithmetic has values for values, that the rows of a subquery keep the NOT NULL
  -- constraints of its tables, and that of an accepted subquery with groups a column proved free of
  -- NULL holds none, for any list of conditions: those that are sent are all sent without an error, and
  -- when ClickHouse filters rows that keep the NOT NULL constraints by what is sent and PostgreSQL
  -- filters what comes back by the conditions that stay, the rows left are exactly those on which
  -- PostgreSQL finds every condition true, in their order.
  pub classify_conditions-keep :
      (es : List Expr)
      → (ss : List Sql) × (append_conditions inner cat (classify_conditions accepts inner cat es).0
          ≡ some ss)
        × ((rows : List Row)
            → All (Respects db cat) rows
            → keep
                (passes db (classify_conditions accepts inner cat es).1)
                (keep (passes_remotely db ss) rows)
              ≡ keep (passes db es) rows)
  unfolding Splits
  classify_conditions-keep es =
      let ((ss, sent, means), whole) = classify-Splits es in
      (
        ss,
        sent,
        λ rows ok. keep-split es (classify_conditions accepts inner cat es) ss rows means whole ok,
      )

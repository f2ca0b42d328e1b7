-- ===== src/Deparse/Nulls/AnyAnswers.antt =====
-- What IN over a subquery answers, and when NOT (x = ANY (SELECT ..)) is true, as functions of the
-- probe and the output.
use pg_clickhouse.Prelude.{
  ℕ, ◌≡◌, refl, ap, sym, ◌∙◌, Bool, true, false, not, ◌&&◌, Option, none, some, List, [], ◌∷◌, All,
  ltb, arith,
}
use pg_clickhouse.Deparse.Nulls.Values.{datum_of, is_true, is_null, not3, is_nonempty}
use pg_clickhouse.Deparse.Nulls.Agree.{is_true-datum_of}
use pg_clickhouse.Deparse.Nulls.Postgres.{exec_array_op}
use pg_clickhouse.Deparse.Nulls.Proved.{has_null}
use pg_clickhouse.Deparse.Nulls.NeverNull.{IsValue}
use pg_clickhouse.Deparse.Nulls.Tally.{verdict, hits, holds_value-hits, count_same-values}
use pg_clickhouse.Deparse.Nulls.ArrayAnswers.{exec-empty, exec-null, exec-some}
use pg_clickhouse.Deparse.Nulls.Sql.{in_values, count_same, same_or_null, holds_value}
use pg_clickhouse.Deparse.Nulls.Emit.{same_bool}

module _ (same : ℕ → ℕ → Bool) where
  has_null-count : (ys : List (Option ℕ)) → has_null ys ≡ ltb 0 (count_same same none ys)
  unfolding has_null count_same same_or_null
  has_null-count [] = refl
  has_null-count (none ∷ ys) = ground arith
  has_null-count (some y ∷ ys) = has_null-count ys

  is_true-verdict : (k n : ℕ) → is_true (datum_of (verdict true k n)) ≡ ltb 0 k
  unfolding verdict is_true datum_of
  is_true-verdict k n = ground arith

  -- IN is true where = ANY is.
  pub in_select-is_true :
      (o : Option ℕ) (ys : List (Option ℕ))
      → is_true (datum_of (in_values same false o ys))
        ≡ is_true (datum_of (exec_array_op same true (some true) o (some ys)))
  unfolding in_values same_bool
  in_select-is_true none [] =
      rw (exec-empty same true true none) (unfold is_true datum_of in ground arith)
  in_select-is_true none (y ∷ ys) = rw (exec-null same true true y ys) refl
  in_select-is_true (some p) ys =
      is_true-datum_of (holds_value same p ys)
      ∙ holds_value-hits same p ys
      ∙ sym (is_true-verdict (hits same true p ys) (count_same same none ys))
      ∙ ap (λ t. is_true (datum_of t)) (sym (exec-some same true true p ys))

  -- IN has the value of = ANY where neither side is NULL.
  pub in_select-exec :
      (o : Option ℕ) (ys : List (Option ℕ))
      → IsValue o
      → All IsValue ys
      → in_values same false o ys ≡ exec_array_op same true (some true) o (some ys)
  unfolding in_values same_bool is_null
  in_select-exec none ys h hs = absurd cc
  in_select-exec (some p) ys h hs =
      rw (exec-some same true true p ys, count_same-values same ys hs, holds_value-hits same p ys)
        (unfold verdict in ground arith)

  not-verdict :
      (k n : ℕ) → is_true (datum_of (not3 (verdict true k n))) ≡ not (ltb 0 k) && not (ltb 0 n)
  unfolding verdict is_true datum_of not3
  not-verdict k n = ground arith

  -- When NOT (x = ANY ..) is true.
  pub not_any-some :
      (p : ℕ) (ys : List (Option ℕ))
      → is_true (datum_of (not3 (exec_array_op same true (some true) (some p) (some ys))))
        ≡ not (holds_value same p ys) && not (has_null ys)
  unfolding same_bool
  not_any-some p ys =
      rw (exec-some same true true p ys, holds_value-hits same p ys, has_null-count ys)
        (not-verdict (hits same true p ys) (count_same same none ys))

  pub not_any-null :
      (ys : List (Option ℕ))
      → is_true (datum_of (not3 (exec_array_op same true (some true) none (some ys))))
        ≡ not (is_nonempty ys)
  unfolding is_nonempty
  not_any-null [] =
      rw (exec-empty same true true none) (unfold is_true datum_of not3 in ground arith)
  not_any-null (y ∷ ys) = rw (exec-null same true true y ys) (unfold is_true datum_of not3 in refl)

pub has_null-values : (ys : List (Option ℕ)) → All IsValue ys → has_null ys ≡ false
unfolding has_null is_null
has_null-values [] h = refl
has_null-values (none ∷ ys) (h, hs) = absurd cc
has_null-values (some y ∷ ys) (h, hs) = has_null-values ys hs

pub and_right : (b : Bool) → b ≡ b && true
and_right true = refl
and_right false = refl

pub not-IsValue : (o : Option ℕ) → o ≡ none → ¬ IsValue o
unfolding is_null
not-IsValue none h v = cc
not-IsValue (some d) h v = cc

-- ===== src/Deparse/Nulls/ArrayAnswers.antt =====
-- The answers of the forms of `deparseScalarArrayOpExpr` in src/deparse.c, as functions of the probe
-- and the elements.
use pg_clickhouse.Prelude.{
  ℕ, ◌-◌, ◌≡◌, refl, ap, sym, ◌∙◌, ◌==◌, Bool, true, false, not, ◌&&◌, Option, none, some, List, [],
  ◌∷◌, ltb, All, length, if◌then◌else◌, arith,
}
use pg_clickhouse.Deparse.Nulls.Values.{
  all3, any3, junction, is_null, is_true, datum_of, is_nonempty,
}
use pg_clickhouse.Deparse.Nulls.Postgres.{exec_array_op}
use pg_clickhouse.Deparse.Nulls.NeverNull.{IsValue}
use pg_clickhouse.Deparse.Nulls.Tally.{
  verdict, hits, any3-hits, all3-hits, any3-null, all3-null, count_same-hits, length-hits,
  holds_value-hits, has_same-hits, count_same-values,
}
use pg_clickhouse.Deparse.Nulls.Agree.{is_true-datum_of}
use pg_clickhouse.Deparse.Nulls.Emit.{same_bool}
use pg_clickhouse.Deparse.Nulls.Sql.{in_values, holds_value, count_same, has_same}

module _ (same : ℕ → ℕ → Bool) where
  pub exec-empty :
      (use_or equal : Bool) (o : Option ℕ)
      → exec_array_op same use_or (some equal) o (some []) ≡ some (not use_or)
  unfolding exec_array_op junction any3 all3
  exec-empty true equal o = refl
  exec-empty false equal o = refl

  pub exec-null :
      (use_or equal : Bool) (x : Option ℕ) (xs : List (Option ℕ))
      → exec_array_op same use_or (some equal) none (some (x ∷ xs)) ≡ none
  unfolding exec_array_op junction
  exec-null true equal x xs = any3-null same equal x xs
  exec-null false equal x xs = all3-null same equal x xs

  pub exec-some :
      (use_or equal : Bool) (p : ℕ) (xs : List (Option ℕ))
      → exec_array_op same use_or (some equal) (some p) (some xs)
        ≡ verdict use_or (hits same (same_bool equal use_or) p xs) (count_same same none xs)
  unfolding exec_array_op junction same_bool
  exec-some true true p xs = any3-hits same true p xs
  exec-some true false p xs = any3-hits same false p xs
  exec-some false true p xs = all3-hits same true p xs
  exec-some false false p xs = all3-hits same false p xs

  -- The number that the second WHEN of the guarded form compares with 0.
  unfoldable pub match_count : Bool → Option ℕ → List (Option ℕ) → ℕ
  match_count true o xs = count_same same o xs
  match_count false o xs = length xs - count_same same o xs - count_same same none xs

  match_count-hits :
      (hit : Bool) (p : ℕ) (xs : List (Option ℕ)) → match_count hit (some p) xs ≡ hits same hit p xs
  unfolding match_count
  match_count-hits true p xs = count_same-hits same p xs
  match_count-hits false p xs = omega (arith, count_same-hits same p xs, length-hits same p xs)

  match_count-empty : (hit : Bool) (o : Option ℕ) → match_count hit o [] ≡ 0
  unfolding match_count count_same
  match_count-empty true o = refl
  match_count-empty false o = refl

  unfoldable pub guarded_answer : Bool → Bool → Option ℕ → List (Option ℕ) → Option ℕ
  guarded_answer use_or hit o xs =
      if is_null o && is_nonempty xs
      then none
      else if ltb 0 (match_count hit o xs)
      then datum_of (some use_or)
      else if ltb 0 (count_same same none xs)
      then none
      else datum_of (some (not use_or))

  datum_of-verdict :
      (found : Bool) (k n : ℕ)
      → (if ltb 0 k
          then datum_of (some found)
          else if ltb 0 n
          then none
          else datum_of (some (not found)))
        ≡ datum_of (verdict found k n)
  unfolding verdict datum_of
  datum_of-verdict found k n = ground arith

  pub guarded_answer-exec :
      (use_or equal : Bool) (o : Option ℕ) (xs : List (Option ℕ))
      → guarded_answer use_or (same_bool equal use_or) o xs
        ≡ datum_of (exec_array_op same use_or (some equal) o (some xs))
  unfolding guarded_answer is_null is_nonempty
  guarded_answer-exec use_or equal none [] =
      rw (match_count-empty (same_bool equal use_or) none, exec-empty use_or equal none)
        (unfold count_same in refl)
  guarded_answer-exec use_or equal none (x ∷ xs) =
      rw (exec-null use_or equal x xs) (unfold datum_of in refl)
  guarded_answer-exec use_or equal (some p) xs =
      rw (match_count-hits (same_bool equal use_or) p xs, exec-some use_or equal p xs)
        (datum_of-verdict use_or _ _)

  -- IN over values, and NOT IN, for an array without NULL.
  pub in_values-exec :
      (use_or : Bool) (o : Option ℕ) (x : Option ℕ) (xs : List (Option ℕ))
      → All IsValue (x ∷ xs)
      → in_values same (not use_or) o (x ∷ xs)
        ≡ exec_array_op same use_or (some use_or) o (some (x ∷ xs))
  unfolding in_values
  in_values-exec true none x xs h = sym (exec-null true true x xs)
  in_values-exec false none x xs h = sym (exec-null false false x xs)
  in_values-exec true (some p) x xs h =
      rw
        (
          exec-some true true p (x ∷ xs),
          count_same-values same (x ∷ xs) h,
          holds_value-hits same p (x ∷ xs),
        )
        (unfold verdict same_bool in ground arith)
  in_values-exec false (some p) x xs h =
      rw
        (
          exec-some false false p (x ∷ xs),
          count_same-values same (x ∷ xs) h,
          holds_value-hits same p (x ∷ xs),
        )
        (unfold verdict same_bool in ground arith)

  is_true-verdict : (k n : ℕ) → is_true (datum_of (verdict true k n)) ≡ ltb 0 k
  unfolding verdict is_true datum_of
  is_true-verdict k n = ground arith

  -- IN is true where = ANY is, with NULL in the array too.
  pub in_values-is_true :
      (o : Option ℕ) (x : Option ℕ) (xs : List (Option ℕ))
      → is_true (datum_of (in_values same false o (x ∷ xs)))
        ≡ is_true (datum_of (exec_array_op same true (some true) o (some (x ∷ xs))))
  unfolding in_values same_bool is_true
  in_values-is_true none x xs = rw (exec-null true true x xs) refl
  in_values-is_true (some p) x xs =
      is_true-datum_of (holds_value same p (x ∷ xs))
      ∙ holds_value-hits same p (x ∷ xs)
      ∙ sym (is_true-verdict _ _)
      ∙ ap (λ t. is_true (datum_of t)) (sym (exec-some true true p (x ∷ xs)))

  unfoldable pub cheap_answer : Bool → Bool → Option ℕ → List (Option ℕ) → Bool
  cheap_answer true true o xs = has_same same o xs
  cheap_answer true false o xs = ltb (count_same same o xs) (length xs)
  cheap_answer false true o xs = count_same same o xs == length xs
  cheap_answer false false o xs = count_same same o xs == 0

  pub cheap_answer-empty :
      (use_or equal : Bool) (o : Option ℕ) → cheap_answer use_or equal o [] ≡ not use_or
  unfolding cheap_answer has_same count_same
  cheap_answer-empty true true o = refl
  cheap_answer-empty true false o = ground arith
  cheap_answer-empty false true o = ground arith
  cheap_answer-empty false false o = ground arith

  cheap_answer-values :
      (use_or equal : Bool) (p : ℕ) (xs : List (Option ℕ))
      → All IsValue xs
      → some (cheap_answer use_or equal (some p) xs)
        ≡ verdict use_or (hits same (same_bool equal use_or) p xs) 0
  unfolding cheap_answer verdict same_bool
  cheap_answer-values true true p xs h = rw (has_same-hits same p xs) (ground arith)
  cheap_answer-values true false p xs h =
      rw (count_same-hits same p xs)
        (ground (arith, length-hits same p xs, count_same-values same xs h))
  cheap_answer-values false true p xs h =
      rw (count_same-hits same p xs)
        (ground (arith, length-hits same p xs, count_same-values same xs h))
  cheap_answer-values false false p xs h = rw (count_same-hits same p xs) (ground arith)

module _ (same : ℕ → ℕ → Bool) where
  pub cheap_exec :
      (use_or equal : Bool) (o : Option ℕ) (xs : List (Option ℕ))
      → IsValue o
      → All IsValue xs
      → some (cheap_answer same use_or equal o xs)
        ≡ exec_array_op same use_or (some equal) o (some xs)
  cheap_exec use_or equal none xs h hs = absurd (unfold is_null in let e : true ≡ false = h in cc)
  cheap_exec use_or equal (some p) xs h hs =
      cheap_answer-values same use_or equal p xs hs
      ∙ ap (λ n. verdict use_or (hits same (same_bool equal use_or) p xs) n)
          (sym (count_same-values same xs hs))
      ∙ sym (exec-some same use_or equal p xs)

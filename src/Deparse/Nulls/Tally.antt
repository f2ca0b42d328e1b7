-- ===== src/Deparse/Nulls/Tally.antt =====
-- What decides an ANY or ALL over the elements of an array: how many elements the comparison holds
-- for and how many are NULL.
use pg_clickhouse.Prelude.{
  ℕ, zero, suc, ◌+◌, ◌≡◌, refl, ap, ◌∙◌, Bool, true, false, not, ◌||◌, Option, none, some, List, [],
  ◌∷◌, map, ltb, All, length, if◌then◌else◌, Bool-cases, inl, inr, arith,
}
use pg_clickhouse.Deparse.Nulls.Values.{and3, or3, all3, any3, is_null}
use pg_clickhouse.Deparse.Nulls.Postgres.{compare3}
use pg_clickhouse.Deparse.Nulls.NeverNull.{IsValue}
use pg_clickhouse.Deparse.Nulls.Emit.{same_bool}
use pg_clickhouse.Deparse.Nulls.Sql.{holds_value, same_or_null, count_same, has_same}

-- The answer `found` when there is a hit, else NULL when there is a NULL, else the opposite.
unfoldable pub verdict : Bool → ℕ → ℕ → Option Bool
verdict found hits nulls =
    if ltb 0 hits then some found else if ltb 0 nulls then none else some (not found)

or3-verdict :
    (b : Bool) (k n : ℕ) → or3 (some b) (verdict true k n) ≡ verdict true (if b then suc k else k) n
unfolding or3 verdict
or3-verdict true k n = ground arith
or3-verdict false k n = refl

or3-verdict_null : (k n : ℕ) → or3 none (verdict true k n) ≡ verdict true k (suc n)
unfolding or3 verdict
or3-verdict_null zero zero = refl
or3-verdict_null zero (suc n) = ground arith
or3-verdict_null (suc k) n = ground arith

and3-verdict :
    (b : Bool) (k n : ℕ)
    → and3 (some b) (verdict false k n) ≡ verdict false (if b then k else suc k) n
unfolding and3 verdict
and3-verdict false k n = ground arith
and3-verdict true k n = refl

and3-verdict_null : (k n : ℕ) → and3 none (verdict false k n) ≡ verdict false k (suc n)
unfolding and3 verdict
and3-verdict_null zero zero = refl
and3-verdict_null zero (suc n) = ground arith
and3-verdict_null (suc k) n = ground arith

module _ (same : ℕ → ℕ → Bool) where
  -- The elements that are values for which the comparison with `p` holds.
  unfoldable pub hits : Bool → ℕ → List (Option ℕ) → ℕ
  hits equal p [] = 0
  hits equal p (none ∷ xs) = hits equal p xs
  hits equal p (some x ∷ xs) =
      let rest = hits equal p xs in if same_bool equal (same p x) then suc rest else rest

  compare3-some :
      (equal : Bool) (p x : ℕ)
      → compare3 same equal (some p) (some x) ≡ some (same_bool equal (same p x))
  unfolding compare3 same_bool
  compare3-some true p x = refl
  compare3-some false p x = refl

  pub any3-hits :
      (equal : Bool) (p : ℕ) (xs : List (Option ℕ))
      → any3 (map (compare3 same equal (some p)) xs)
        ≡ verdict true (hits equal p xs) (count_same same none xs)
  unfolding any3 hits count_same same_or_null
  any3-hits equal p [] = unfold verdict in refl
  any3-hits equal p (none ∷ xs) =
      ap (λ t. or3 (compare3 same equal (some p) none) t) (any3-hits equal p xs)
      ∙ (unfold compare3 in or3-verdict_null (hits equal p xs) (count_same same none xs))
  any3-hits equal p (some x ∷ xs) =
      ap (λ t. or3 (compare3 same equal (some p) (some x)) t) (any3-hits equal p xs)
      ∙ ap (λ t. or3 t (verdict true (hits equal p xs) (count_same same none xs)))
          (compare3-some equal p x)
      ∙ or3-verdict _ _ _

  and3-hit :
      (equal : Bool) (p x k n : ℕ)
      → and3 (some (same_bool equal (same p x))) (verdict false k n)
        ≡ verdict false (if same_bool (not equal) (same p x) then suc k else k) n
  unfolding same_bool
  and3-hit true p x k n = elim (Bool-cases (same p x)) [
    | inl y ↦ rw y (and3-verdict true k n)
    | inr o ↦ rw o (and3-verdict false k n)
  ]
  and3-hit false p x k n = elim (Bool-cases (same p x)) [
    | inl y ↦ rw y (and3-verdict false k n)
    | inr o ↦ rw o (and3-verdict true k n)
  ]

  pub all3-hits :
      (equal : Bool) (p : ℕ) (xs : List (Option ℕ))
      → all3 (map (compare3 same equal (some p)) xs)
        ≡ verdict false (hits (not equal) p xs) (count_same same none xs)
  unfolding all3 hits count_same same_or_null
  all3-hits equal p [] = unfold verdict in refl
  all3-hits equal p (none ∷ xs) =
      ap (λ t. and3 (compare3 same equal (some p) none) t) (all3-hits equal p xs)
      ∙ (unfold compare3 in and3-verdict_null (hits (not equal) p xs) (count_same same none xs))
  all3-hits equal p (some x ∷ xs) =
      ap (λ t. and3 (compare3 same equal (some p) (some x)) t) (all3-hits equal p xs)
      ∙ ap (λ t. and3 t (verdict false (hits (not equal) p xs) (count_same same none xs)))
          (compare3-some equal p x)
      ∙ and3-hit equal p x _ _

  -- A NULL probe against an element is NULL.
  pub any3-null :
      (equal : Bool) (x : Option ℕ) (xs : List (Option ℕ))
      → any3 (map (compare3 same equal none) (x ∷ xs)) ≡ none
  unfolding any3 compare3 or3
  any3-null equal x [] = refl
  any3-null equal x (y ∷ xs) = rw (any3-null equal y xs) refl

  pub all3-null :
      (equal : Bool) (x : Option ℕ) (xs : List (Option ℕ))
      → all3 (map (compare3 same equal none) (x ∷ xs)) ≡ none
  unfolding all3 compare3 and3
  all3-null equal x [] = refl
  all3-null equal x (y ∷ xs) = rw (all3-null equal y xs) refl

  pub count_same-hits :
      (p : ℕ) (xs : List (Option ℕ)) → count_same same (some p) xs ≡ hits true p xs
  unfolding count_same same_or_null hits same_bool
  count_same-hits p [] = refl
  count_same-hits p (none ∷ xs) = count_same-hits p xs
  count_same-hits p (some x ∷ xs) = rw (count_same-hits p xs) refl

  pub length-hits :
      (p : ℕ) (xs : List (Option ℕ))
      → length xs ≡ hits true p xs + hits false p xs + count_same same none xs
  unfolding hits count_same same_or_null same_bool
  length-hits p [] = refl
  length-hits p (none ∷ xs) = omega (arith, length-hits p xs)
  length-hits p (some x ∷ xs) = elim (Bool-cases (same p x)) [
    | inl y ↦ rw y (omega (arith, length-hits p xs))
    | inr o ↦ rw o (omega (arith, length-hits p xs))
  ]

  or_hit : (b : Bool) (k : ℕ) → (b || ltb 0 k) ≡ ltb 0 (if b then suc k else k)
  or_hit true k = ground arith
  or_hit false k = refl

  pub holds_value-hits :
      (p : ℕ) (xs : List (Option ℕ)) → holds_value same p xs ≡ ltb 0 (hits true p xs)
  unfolding holds_value hits same_bool
  holds_value-hits p [] = refl
  holds_value-hits p (none ∷ xs) = holds_value-hits p xs
  holds_value-hits p (some x ∷ xs) = rw (holds_value-hits p xs) (or_hit (same p x) (hits true p xs))

  pub has_same-hits :
      (p : ℕ) (xs : List (Option ℕ)) → has_same same (some p) xs ≡ ltb 0 (hits true p xs)
  unfolding has_same same_or_null hits same_bool
  has_same-hits p [] = refl
  has_same-hits p (none ∷ xs) = has_same-hits p xs
  has_same-hits p (some x ∷ xs) = rw (has_same-hits p xs) (or_hit (same p x) (hits true p xs))

  pub count_same-values : (xs : List (Option ℕ)) → All IsValue xs → count_same same none xs ≡ 0
  unfolding count_same same_or_null is_null
  count_same-values [] h = refl
  count_same-values (none ∷ xs) (h, hs) = absurd cc
  count_same-values (some x ∷ xs) (h, hs) = count_same-values xs hs

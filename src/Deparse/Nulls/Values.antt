-- ===== src/Deparse/Nulls/Values.antt =====
-- Values that can be NULL and the logic of three values, which PostgreSQL and ClickHouse share.
use pg_clickhouse.Prelude.{
  ℕ, Bool, true, false, not, Option, none, some, List, [], ◌∷◌, ◌==◌, if◌then◌else◌,
}
use pg_clickhouse.Deparse.Nulls.Tree.{BoolExprType, and_expr, or_expr}

-- A truth value as a value: NULL, 0 or 1.
unfoldable pub datum_of : Option Bool → Option ℕ
datum_of none = none
datum_of (some true) = some 1
datum_of (some false) = some 0

unfoldable pub truth_of : Option ℕ → Option Bool
truth_of none = none
truth_of (some d) = some (d == 1)

unfoldable pub is_true : Option ℕ → Bool
is_true none = false
is_true (some d) = d == 1

unfoldable pub is_null : Option ℕ → Bool
is_null none = true
is_null (some d) = false

unfoldable pub not3 : Option Bool → Option Bool
not3 none = none
not3 (some b) = some (not b)

unfoldable pub and3 : Option Bool → Option Bool → Option Bool
and3 (some false) b = some false
and3 (some true) b = b
and3 none none = none
and3 none (some true) = none
and3 none (some false) = some false

unfoldable pub or3 : Option Bool → Option Bool → Option Bool
or3 (some true) b = some true
or3 (some false) b = b
or3 none none = none
or3 none (some false) = none
or3 none (some true) = some true

unfoldable pub all3 : List (Option Bool) → Option Bool
unfolding and3
all3 [] = some true
all3 (b ∷ bs) = and3 b (all3 bs)

unfoldable pub any3 : List (Option Bool) → Option Bool
unfolding or3
any3 [] = some false
any3 (b ∷ bs) = or3 b (any3 bs)

unfoldable pub junction : BoolExprType → List (Option Bool) → Option Bool
unfolding all3 any3
junction and_expr bs = all3 bs
junction or_expr bs = any3 bs

unfoldable pub keep {ℓ} : {A : Type ℓ} → (A → Bool) → List A → List A
keep p [] = []
keep p (x ∷ xs) = let rest = keep p xs in if p x then x ∷ rest else rest

unfoldable pub is_nonempty {ℓ} : {A : Type ℓ} → List A → Bool
is_nonempty [] = false
is_nonempty (x ∷ xs) = true

-- The first value of a list, NULL when there is none.
unfoldable pub first_value : List (Option ℕ) → Option ℕ
first_value [] = none
first_value (x ∷ xs) = x

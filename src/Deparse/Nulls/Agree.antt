-- ===== src/Deparse/Nulls/Agree.antt =====
-- When what ClickHouse answers may stand for what PostgreSQL answers.
use pg_clickhouse.Prelude.{
  ℕ, ◌≡◌, refl, ap, ◌∙◌, sym, Bool, true, false, Option, none, some, if◌then◌else◌, arith, List, [],
  ◌∷◌, map, ◌&&◌, ◌||◌, ◌==◌,
}
use pg_clickhouse.Deparse.Nulls.Values.{
  is_true, datum_of, truth_of, and3, or3, all3, any3, junction,
}
use pg_clickhouse.Deparse.Nulls.Tree.{BoolExprType, and_expr, or_expr}

-- Where only truth counts, both are true or neither is; elsewhere they are the same value.
unfoldable pub Agrees : Bool → Option ℕ → Option ℕ → Type 0
Agrees true a b = is_true a ≡ is_true b
Agrees false a b = a ≡ b

pub Agrees-same : (truth : Bool) (a b : Option ℕ) → a ≡ b → Agrees truth a b
unfolding Agrees
Agrees-same true a b h = ap is_true h
Agrees-same false a b h = h

pub Agrees-exact : (a b : Option ℕ) → Agrees false a b → a ≡ b
unfolding Agrees
Agrees-exact a b h = h

pub is_true-datum_of : (b : Bool) → is_true (datum_of (some b)) ≡ b
unfolding is_true datum_of
is_true-datum_of true = ground arith
is_true-datum_of false = ground arith

pub truth_of-datum_of : (b : Option Bool) → truth_of (datum_of b) ≡ b
unfolding truth_of datum_of
truth_of-datum_of none = refl
truth_of-datum_of (some true) = ground arith
truth_of-datum_of (some false) = ground arith

-- A property of both branches of a conditional.
pub if_either {ℓ κ} :
    {A : Type ℓ} (P : A → Type κ) (b : Bool) (x y : A)
    → (b ≡ true → P x)
    → (b ≡ false → P y)
    → P (if b then x else y)
if_either P true x y hx hy = hx refl
if_either P false x y hx hy = hy refl

unfoldable pub AgreesAll : Bool → List (Option ℕ) → List (Option ℕ) → Type 0
AgreesAll true xs ys = map is_true xs ≡ map is_true ys
AgreesAll false xs ys = xs ≡ ys

is_true-and3 :
    (a b : Option Bool)
    → is_true (datum_of (and3 a b)) ≡ is_true (datum_of a) && is_true (datum_of b)
unfolding and3 is_true datum_of
is_true-and3 none none = refl
is_true-and3 none (some true) = refl
is_true-and3 none (some false) = ground arith
is_true-and3 (some true) b = ground arith
is_true-and3 (some false) b = ground arith

is_true-or3 :
    (a b : Option Bool)
    → is_true (datum_of (or3 a b)) ≡ is_true (datum_of a) || is_true (datum_of b)
unfolding or3 is_true datum_of
is_true-or3 none none = refl
is_true-or3 none (some true) = ground arith
is_true-or3 none (some false) = ground arith
is_true-or3 (some true) b = ground arith
is_true-or3 (some false) b = ground arith

pub is_true-truth_of : (a : Option ℕ) → is_true (datum_of (truth_of a)) ≡ is_true a
unfolding truth_of
is_true-truth_of none = unfold is_true datum_of in refl
is_true-truth_of (some d) = is_true-datum_of (d == 1) ∙ (unfold is_true in refl)

all_of : List Bool → Bool
all_of [] = true
all_of (b ∷ bs) = b && all_of bs

any_of : List Bool → Bool
any_of [] = false
any_of (b ∷ bs) = b || any_of bs

is_true-all3 :
    (xs : List (Option ℕ)) → is_true (datum_of (all3 (map truth_of xs))) ≡ all_of (map is_true xs)
unfolding all3 all_of
is_true-all3 [] = is_true-datum_of true
is_true-all3 (x ∷ xs) =
    is_true-and3 (truth_of x) (all3 (map truth_of xs))
    ∙ rw (is_true-truth_of x, is_true-all3 xs) refl

is_true-any3 :
    (xs : List (Option ℕ)) → is_true (datum_of (any3 (map truth_of xs))) ≡ any_of (map is_true xs)
unfolding any3 any_of
is_true-any3 [] = is_true-datum_of false
is_true-any3 (x ∷ xs) =
    is_true-or3 (truth_of x) (any3 (map truth_of xs))
    ∙ rw (is_true-truth_of x, is_true-any3 xs) refl

-- AND and OR of operands that agree.
pub Agrees-junction :
    (truth : Bool) (op : BoolExprType) (xs ys : List (Option ℕ))
    → AgreesAll truth xs ys
    → Agrees truth
        (datum_of (junction op (map truth_of xs)))
        (datum_of (junction op (map truth_of ys)))
unfolding Agrees AgreesAll junction
Agrees-junction true and_expr xs ys h = is_true-all3 xs ∙ ap all_of h ∙ sym (is_true-all3 ys)
Agrees-junction true or_expr xs ys h = is_true-any3 xs ∙ ap any_of h ∙ sym (is_true-any3 ys)
Agrees-junction false op xs ys h = ap (λ zs. datum_of (junction op (map truth_of zs))) h

pub AgreesAll-cons :
    (truth : Bool) (x y : Option ℕ) (xs ys : List (Option ℕ))
    → Agrees truth x y
    → AgreesAll truth xs ys
    → AgreesAll truth (x ∷ xs) (y ∷ ys)
unfolding Agrees AgreesAll
AgreesAll-cons true x y xs ys h hs = rw (h, hs) refl
AgreesAll-cons false x y xs ys h hs = rw (h, hs) refl

-- One value for a conditional whose condition is true on both sides or on neither.
pub Agrees-if :
    (truth b c : Bool) (x y s t : Option ℕ)
    → b ≡ c
    → Agrees truth x s
    → Agrees truth y t
    → Agrees truth (if b then x else y) (if c then s else t)
Agrees-if truth b c x y s t same hx hy = rw same (choose c)
  where
    choose : (c : Bool) → Agrees truth (if c then x else y) (if c then s else t)
    choose true = hx
    choose false = hy

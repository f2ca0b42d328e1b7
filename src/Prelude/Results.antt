-- ===== src/Prelude/Results.antt =====
-- `ereport(ERROR, ...)` leaves a function with an error: a result is a value or an error.
use mathlib.Core.Path.{◌≡◌, refl}
use mathlib.Core.Logic.{◌⊎◌, inl, inr}

pub data Result {ℓ κ} (E : Type ℓ) (A : Type κ) : Type (ℓ ⊔ κ) where
  ok : A → Result E A
  err : E → Result E A

infixl 5 ◌>>=◌
abbrev pub ◌>>=◌ {ℓ κ μ} :
    {E : Type ℓ} {A : Type κ} {B : Type μ} → Result E A → (A → Result E B) → Result E B
ok a >>= f = f a
err e >>= f = err e

-- A chain of two results that ends well has both its links.
pub >>=-eq-ok {ℓ κ μ} :
    {E : Type ℓ} {A : Type κ} {B : Type μ} {last : B} (first : Result E A) (next : A → Result E B)
    → (first >>= next) ≡ ok last
    → (link : A) × (first ≡ ok link) × (next link ≡ ok last)
>>=-eq-ok (ok link) next whole = (link, refl, whole)
>>=-eq-ok (err reason) next whole = cc

pub Result-cases {ℓ κ} :
    {E : Type ℓ} {A : Type κ} (m : Result E A) → ((a : A) × (m ≡ ok a)) ⊎ ((e : E) × (m ≡ err e))
Result-cases (ok a) = inl (a, refl)
Result-cases (err e) = inr (e, refl)

pub err-injective {ℓ κ} :
    {E : Type ℓ} (A : Type κ) (e e' : E) → ◌≡◌ {A = Result E A} (err e) (err e') → e ≡ e'
err-injective A e e' p = cc

pub ok-injective {ℓ κ} :
    (E : Type ℓ) {A : Type κ} (a b : A) → ◌≡◌ {A = Result E A} (ok a) (ok b) → a ≡ b
ok-injective E a b p = cc

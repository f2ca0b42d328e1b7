-- ===== src/Prelude/Prefix.antt =====
-- What a byte string begins with.
use Prim.Native.Nat.{ℕ, zero, suc, ◌≤◌}
use mathlib.Core.Path.{◌≡◌, refl, sym, ap, ◌∙◌}
use mathlib.Core.Logic.{inl, inr}
use mathlib.Core.Bool.{Bool, true, false, ◌&&◌, ◌||◌}
use mathlib.Core.List.{[], ◌∷◌, ◌++◌}
use native.Mathlib.Omega.{arith}
use pg_clickhouse.Prelude.Tests.{◌==◌, ==_iff, Bool-cases, and_true, or_false}
use pg_clickhouse.Prelude.Lists.{length, take}
use pg_clickhouse.Prelude.Text.{Bytes}

-- `memcmp(s, p, strlen(p)) == 0`, with what `s` has behind `p`.
unfoldable pub starts_with : Bytes → Bytes → Bool
starts_with [] s = true
starts_with (p ∷ ps) [] = false
starts_with (p ∷ ps) (c ∷ s) = p == c && starts_with ps s

-- Whether a text occurs somewhere in a string.
unfoldable pub contains : Bytes → Bytes → Bool
unfolding starts_with
contains text [] = starts_with text []
contains text (c ∷ s) = starts_with text (c ∷ s) || contains text s

pub data IsPrefix : Bytes → Bytes → Type 0 where
  empty : (s : Bytes) → IsPrefix [] s
  byte : (c : ℕ) (p s : Bytes) → IsPrefix p s → IsPrefix (c ∷ p) (c ∷ s)

pub IsPrefix-refl : (s : Bytes) → IsPrefix s s
IsPrefix-refl [] = empty []
IsPrefix-refl (c ∷ s) = byte c s s (IsPrefix-refl s)

pub IsPrefix-trans : (p q s : Bytes) → IsPrefix p q → IsPrefix q s → IsPrefix p s
IsPrefix-trans [] q s (empty _) h = empty s
IsPrefix-trans (c ∷ p) [] s g h = elim g [ ]
IsPrefix-trans (c ∷ p) (_ ∷ q) [] g h = elim h [ ]
IsPrefix-trans (c ∷ p) (_ ∷ q) (_ ∷ s) (byte _ _ _ g) (byte _ _ _ h) =
    byte c p s (IsPrefix-trans p q s g h)

pub IsPrefix-take : (n : ℕ) (s : Bytes) → IsPrefix (take n s) s
IsPrefix-take zero s = empty s
IsPrefix-take (suc n) [] = empty []
IsPrefix-take (suc n) (c ∷ s) = byte c (take n s) s (IsPrefix-take n s)

pub length-IsPrefix : (p s : Bytes) → IsPrefix p s → length p ≤ length s
length-IsPrefix [] s (empty _) = omega arith
length-IsPrefix (c ∷ p) [] h = elim h [ ]
length-IsPrefix (c ∷ p) (_ ∷ s) (byte _ _ _ h) = omega (arith, length-IsPrefix p s h)

pub starts_with-IsPrefix :
    (text p s : Bytes) → IsPrefix p s → starts_with text s ≡ false → starts_with text p ≡ false
unfolding starts_with
starts_with-IsPrefix [] p s h apart = apart
starts_with-IsPrefix (t ∷ text) [] s (empty _) apart = refl
starts_with-IsPrefix (t ∷ text) (c ∷ p) [] h apart = elim h [ ]
starts_with-IsPrefix (t ∷ text) (c ∷ p) (_ ∷ s) (byte _ _ _ h) apart = elim (Bool-cases (t == c)) [
  | inl same ↦ rw same (starts_with-IsPrefix text p s h (rw same at apart))
  | inr other ↦ rw other refl
]

contains-starts_with : (text s : Bytes) → contains text s ≡ false → starts_with text s ≡ false
unfolding contains
contains-starts_with text [] h = h
contains-starts_with text (c ∷ s) h = (or_false (starts_with text (c ∷ s)) (contains text s) h).0

pub contains-IsPrefix :
    (text p s : Bytes) → IsPrefix p s → contains text s ≡ false → contains text p ≡ false
unfolding contains
contains-IsPrefix text [] s (empty _) apart =
    starts_with-IsPrefix text [] s (empty s) (contains-starts_with text s apart)
contains-IsPrefix text (c ∷ p) [] h apart = elim h [ ]
contains-IsPrefix text (c ∷ p) (_ ∷ s) (byte _ _ _ h) apart =
    let (front, back) = or_false (starts_with text (c ∷ s)) (contains text s) apart in
    rw (starts_with-IsPrefix text (c ∷ p) (c ∷ s) (byte c p s h) front)
      (contains-IsPrefix text p s h back)

pub starts_with-append : (p s : Bytes) → starts_with p s ≡ true → (r : Bytes) × (s ≡ p ++ r)
unfolding starts_with
starts_with-append [] s h = (s, refl)
starts_with-append (a ∷ p) [] h = absurd cc
starts_with-append (a ∷ p) (c ∷ s) h =
    let (same, more) = and_true (a == c) (starts_with p s) h in
    let (r, rest) = starts_with-append p s more in
    (r, ap (λ d. d ∷ s) (sym ((==_iff a c).0 same)) ∙ ap (λ l. a ∷ l) rest)

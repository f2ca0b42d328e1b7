-- ===== src/Prelude/Text.antt =====
-- Byte strings, and the functions of the C library that the program calls on them. A C string
-- is the list of its bytes before the terminating NUL.
use Prim.Native.Nat.{ℕ}
use Prim.Native.Char.{code}
use Prim.Native.String.{String}
use mathlib.Core.Path.{◌≡◌, sym, ◌∙◌}
use mathlib.Core.Logic.{◌↔◌, ◌≢◌}
use mathlib.Core.Bool.{false≢true, Bool, true, false, ◌&&◌, ◌||◌}
use mathlib.Core.List.{List, [], ◌∷◌}
use native.Mathlib.Omega.{arith}
use pg_clickhouse.Prelude.Tests.{leb, ◌==◌}

abbrev pub Bytes : Type 0
Bytes = List ℕ

-- The code points of a literal; these are its bytes, as every literal here is ASCII.
abbrev pub codes : String → Bytes
codes String.[] = []
codes (String.◌∷◌ c s) = code c ∷ codes s

-- `strcmp(a, b) == 0`.
unfoldable pub str_eq : Bytes → Bytes → Bool
str_eq [] [] = true
str_eq [] (b ∷ bs) = false
str_eq (a ∷ as') [] = false
str_eq (a ∷ as') (b ∷ bs) = a == b && str_eq as' bs

pub str_eq_iff : (a b : Bytes) → (str_eq a b ≡ true) ↔ (a ≡ b)
unfolding str_eq
str_eq_iff [] [] = ground arith
str_eq_iff [] (b ∷ bs) = ground arith
str_eq_iff (a ∷ as') [] = ground arith
str_eq_iff (a ∷ as') (b ∷ bs) = ground (arith, str_eq_iff as' bs)

pub str_eq-false : (a b : Bytes) → str_eq a b ≡ false → a ≢ b
str_eq-false a b h same = false≢true (sym h ∙ (str_eq_iff a b).1 same)

-- `isdigit` of the C locale.
unfoldable pub is_digit : ℕ → Bool
is_digit c = leb 48 c && leb c 57

-- `isspace` of the C locale.
unfoldable pub is_space : ℕ → Bool
is_space c = c == 32 || leb 9 c && leb c 13

abbrev pub Blank : ℕ → Type 0
Blank c = is_space c ≡ true

abbrev pub NonBlank : ℕ → Type 0
NonBlank c = is_space c ≡ false

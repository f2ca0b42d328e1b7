-- ===== src/Deparse/Nulls/Arithmetic.antt =====
-- PostgreSQL's functions for +, - and * on its numbers, by what they compute, apart from the table
-- `never_null_opfuncs` of src/deparse.c.
use pg_clickhouse.Prelude.{
  Bytes, codes, Bool, true, false, ◌≡◌, refl, sym, subst, ◌++◌, ◌||◌, List, [], ◌∷◌, map, str_eq,
  str_eq_iff, Bool-cases, inl, inr,
}
use pg_clickhouse.Deparse.Nulls.Proved.{never_null_opfuncs, is_listed, is_non_nullable_op}

pub data Operation : Type 0 where
  plus minus times : Operation

pub data IntegerType : Type 0 where
  short normal long : IntegerType

pub data FloatType : Type 0 where
  single double : FloatType

-- An arithmetic operator on numbers of one kind, or unary minus.
pub data Arithmetic : Type 0 where
  integer : Operation → IntegerType → IntegerType → Arithmetic
  floating : Operation → FloatType → FloatType → Arithmetic
  numeric : Operation → Arithmetic
  negated_integer : IntegerType → Arithmetic
  negated_floating : FloatType → Arithmetic
  negated_numeric : Arithmetic

operation_name : Operation → Bytes
operation_name plus = codes "pl"
operation_name minus = codes "mi"
operation_name times = codes "mul"

integer_name : IntegerType → Bytes
integer_name short = codes "2"
integer_name normal = codes "4"
integer_name long = codes "8"

float_name : FloatType → Bytes
float_name single = codes "4"
float_name double = codes "8"

-- Operands of one width have it once in the name.
integers_name : IntegerType → IntegerType → Bytes
unfolding integer_name
integers_name short short = codes "2"
integers_name normal normal = codes "4"
integers_name long long = codes "8"
integers_name a b = integer_name a ++ integer_name b

floats_name : FloatType → FloatType → Bytes
unfolding float_name
floats_name single single = codes "4"
floats_name double double = codes "8"
floats_name a b = float_name a ++ float_name b

-- The name of the function in PostgreSQL's catalog.
unfoldable pub function_name : Arithmetic → Bytes
unfolding operation_name integers_name floats_name integer_name float_name
function_name (integer op a b) = codes "int" ++ integers_name a b ++ operation_name op
function_name (floating op a b) = codes "float" ++ floats_name a b ++ operation_name op
function_name (numeric plus) = codes "numeric_add"
function_name (numeric minus) = codes "numeric_sub"
function_name (numeric times) = codes "numeric_mul"
function_name (negated_integer a) = codes "int" ++ integer_name a ++ codes "um"
function_name (negated_floating a) = codes "float" ++ float_name a ++ codes "um"
function_name negated_numeric = codes "numeric_uminus"

-- A name is that of such a function.
abbrev pub IsFunctionName : Bytes → Type 0
IsFunctionName f = (g : Arithmetic) × (function_name g ≡ f)

-- The table's entries as functions, in its order.
abbrev table : List Arithmetic
table =
    (integer plus short short)
    ∷ (integer plus normal normal)
    ∷ (integer plus long long)
    ∷ (integer plus short normal)
    ∷ (integer plus normal short)
    ∷ (integer plus short long)
    ∷ (integer plus long short)
    ∷ (integer plus normal long)
    ∷ (integer plus long normal)
    ∷ (floating plus single single)
    ∷ (floating plus double double)
    ∷ (floating plus single double)
    ∷ (floating plus double single)
    ∷ (numeric plus)
    ∷ (integer minus short short)
    ∷ (integer minus normal normal)
    ∷ (integer minus long long)
    ∷ (integer minus short normal)
    ∷ (integer minus normal short)
    ∷ (integer minus short long)
    ∷ (integer minus long short)
    ∷ (integer minus normal long)
    ∷ (integer minus long normal)
    ∷ (floating minus single single)
    ∷ (floating minus double double)
    ∷ (floating minus single double)
    ∷ (floating minus double single)
    ∷ (numeric minus)
    ∷ (integer times short short)
    ∷ (integer times normal normal)
    ∷ (integer times long long)
    ∷ (integer times short normal)
    ∷ (integer times normal short)
    ∷ (integer times short long)
    ∷ (integer times long short)
    ∷ (integer times normal long)
    ∷ (integer times long normal)
    ∷ (floating times single single)
    ∷ (floating times double double)
    ∷ (floating times single double)
    ∷ (floating times double single)
    ∷ (numeric times)
    ∷ (negated_integer short)
    ∷ (negated_integer normal)
    ∷ (negated_integer long)
    ∷ (negated_floating single)
    ∷ (negated_floating double)
    ∷ negated_numeric
    ∷ []

map-table : map function_name table ≡ never_null_opfuncs
unfolding function_name
map-table = refl

or_right : (a b : Bool) → a ≡ false → (a || b) ≡ true → b ≡ true
or_right true b e h = absurd cc
or_right false b e h = h

is_listed-map :
    (f : Bytes) (gs : List Arithmetic)
    → is_listed f (map function_name gs) ≡ true
    → IsFunctionName f
unfolding is_listed
is_listed-map f [] h = absurd cc
is_listed-map f (g ∷ gs) h = elim (Bool-cases (str_eq f (function_name g))) [
  | inl y ↦ (g, sym ((str_eq_iff f (function_name g)).0 y))
  | inr n ↦
      is_listed-map f gs
        (or_right (str_eq f (function_name g)) (is_listed f (map function_name gs)) n h)
]

-- The table holds arithmetic only.
pub is_non_nullable_op-IsFunctionName : (f : Bytes) → is_non_nullable_op f ≡ true → IsFunctionName f
unfolding is_non_nullable_op
is_non_nullable_op-IsFunctionName f h =
    is_listed-map f table (subst (λ gs. is_listed f gs ≡ true) (sym map-table) h)

-- ===== src/Examples/Backend.antt =====
-- A backend that meets what is assumed of PostgreSQL's.
use pg_clickhouse.Prelude.{
  ℕ, ◌+◌, Bytes, Bool, true, false, ◌&&◌, ◌≡◌, refl, ◌↔◌, [], ◌∷◌, Option, none, some, arith, leb,
  str_eq, str_eq_iff, if◌then◌else◌,
}
use pg_clickhouse.Postgres.{Postgres}
use pg_clickhouse.KvList.{Allocator}

abbrev pub text_or_empty : Option Bytes → Bytes
text_or_empty none = []
text_or_empty (some v) = v

pub text_or_empty_lem : (o : Option Bytes) (v : Bytes) → o ≡ some v → text_or_empty o ≡ v
text_or_empty_lem none v e = cc
text_or_empty_lem (some w) v e = cc

abbrev pub same_arg : Option Bytes → Option Bytes → Bool
same_arg none none = true
same_arg none (some b) = false
same_arg (some a) none = false
same_arg (some a) (some b) = str_eq a b

pub same_arg_iff : (a b : Option Bytes) → (same_arg a b ≡ true) ↔ (a ≡ b)
same_arg_iff none none = ground arith
same_arg_iff none (some b) = ground arith
same_arg_iff (some a) none = ground arith
same_arg_iff (some a) (some b) = ground (arith, str_eq_iff a b)

abbrev pub lower : ℕ → ℕ
lower c = if leb b'A' c && leb c b'Z' then c + 32 else c

abbrev pub folded : Bytes → Bytes
folded [] = []
folded (c ∷ s) = lower c ∷ folded s

pub same_folded_self : (a : Bytes) → str_eq (folded a) (folded a) ≡ true
same_folded_self a = (str_eq_iff (folded a) (folded a)).1 refl

abbrev pub backend : Postgres
backend = record {
  def_get_string = λ d. text_or_empty d.arg;
  def_get_string_lem = λ d v. text_or_empty_lem d.arg v;
  equal = same_arg;
  equal_iff = same_arg_iff;
  same_folded = λ a b. str_eq (folded a) (folded b);
  same_folded_refl = same_folded_self;
}

-- Memory that never runs out.
abbrev pub ample : Allocator → ℕ → Bool
ample a n = true

-- An encoding check that has one spelling.
abbrev pub one_encoding : Bytes → Option (Unit {0})
one_encoding [] = none
one_encoding (c ∷ s) = some tt

-- ===== src/Postgres.antt =====
-- What the program takes from PostgreSQL's backend, whose code is not in this repository: the
-- functions that it calls on nodes and texts, with the documented behaviour that it relies on.
use pg_clickhouse.Prelude.{Bytes, Bool, true, ◌≡◌, ◌↔◌, Option, some}
use pg_clickhouse.Nodes.{DefElem}

pub record Postgres : Type 0 where
  -- `defGetString`: the text of an option's argument.
  pub def_get_string : DefElem → Bytes
  pub def_get_string_lem : (d : DefElem) (v : Bytes) → d.arg ≡ some v → def_get_string d ≡ v
  -- `equal` on two arguments, each a String node or NULL.
  pub equal : Option Bytes → Option Bytes → Bool
  pub equal_iff : (a b : Option Bytes) → (equal a b ≡ true) ↔ (a ≡ b)
  -- `pg_strcasecmp(a, b) == 0`: equality up to the case of ASCII letters.
  pub same_folded : Bytes → Bytes → Bool
  pub same_folded_refl : (a : Bytes) → same_folded a a ≡ true

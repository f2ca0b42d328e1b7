-- ===== src/Nodes.antt =====
-- PostgreSQL's `DefElem` nodes with string arguments, as src/option.c, src/settings.c and
-- src/kv_list.c pass them in a `List`. A NULL argument is `none`.
use pg_clickhouse.Prelude.{Bytes, Option, some}

pub record DefElem : Type 0 where
  pub defname : Bytes
  pub arg : Option Bytes

-- `makeDefElem(name, makeString(value), -1)`.
abbrev pub make : Bytes → Bytes → DefElem
make name value = record { defname = name; arg = some value }

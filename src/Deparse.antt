-- ===== src/Deparse.antt =====
-- src/deparse.c: the parts that turn texts of PostgreSQL into texts of ClickHouse (ToChar, RegexFlags),
-- and those that choose the conditions to send and keep NULL apart from FALSE in them (Nulls).
pub mod ToChar
pub mod RegexFlags
pub mod Nulls

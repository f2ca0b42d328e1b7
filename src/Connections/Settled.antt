-- ===== src/Connections/Settled.antt =====
-- The end of a transaction in src/connection.c.
use pg_clickhouse.Prelude.{ℕ, ◌≡◌, false, ◌&&◌}
use pg_clickhouse.Options.Validate.{is_some}
use pg_clickhouse.Connections.{Entry}

-- An entry that is free, and whose connection, if it has one, is still valid.
abbrev pub IsSettled : ℕ × Entry → Type 0
IsSettled (k, e) = (e.busy ≡ false) × ((is_some e.gate && e.invalidated) ≡ false)

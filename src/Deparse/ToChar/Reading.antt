-- ===== src/Deparse/ToChar/Reading.antt =====
-- What the format that `chfdw_translate_to_char_format` of src/deparse.c writes means.
use pg_clickhouse.Prelude.{◌≡◌, Bytes, Bool, true, false, ◌∷◌, Result, ok}
use pg_clickhouse.Options.Scan.{backslash}
use pg_clickhouse.Deparse.ToChar.{Refusal}
use pg_clickhouse.Deparse.ToChar.Fields.{
  Field, Item, read_format, StartsTh, Reads, year, year_of_century, quarter, month, month_name,
  is_one_of, day, day_of_year, weekday, hour, hour12, minute, second, half_of_day,
}
use pg_clickhouse.Deparse.ToChar.Fields

-- The text that `read_literal` reads: the flag tells that a backslash stands before it.
unfoldable whole : Bool → Bytes → Bytes
whole true s = backslash ∷ s
whole false s = s

-- What a part of the loop reads from a text when it writes `out`.
abbrev Writes : (Bool → Bytes → Result Refusal Bytes) → Type 0
Writes loop =
    (b : Bool) (s out : Bytes)
    → loop b s ≡ ok out
    → Reads s (read_format out) × (b ≡ true → ¬ StartsTh s)

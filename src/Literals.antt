-- ===== src/Literals.antt =====
-- Texts inside SQL for ClickHouse: `ch_escape_string`, `ch_quote_literal_internal`, `ch_quote_literal`
-- and `ch_append_literal` of src/pglink.c, and `deparseByteaLiteral` of src/deparse.c.
pub mod Lexer
pub mod Laws
use pg_clickhouse.Prelude.{
  ℕ, ◌+◌, ◌/◌, ◌%◌, Bytes, codes, Bool, true, false, ◌&&◌, List, [], ◌∷◌, ◌++◌, ◌==◌, leb, ltb,
  if◌then◌else◌,
}
use pg_clickhouse.Options.Scan.{quote, backslash}

-- The cases of the `switch` of `ch_escape_string`.
unfoldable pub escape_char : ℕ → Bytes
escape_char c =
    if c == quote
    then backslash ∷ c ∷ []
    else if c == backslash
    then c ∷ c ∷ []
    else if c == 8
    then codes "\\b"
    else if c == 12
    then codes "\\f"
    else if c == 13
    then codes "\\r"
    else if c == 10
    then codes "\\n"
    else if c == 9
    then codes "\\t"
    else if c == 0
    then codes "\\0"
    else if c == 7
    then codes "\\a"
    else if c == 11
    then codes "\\v"
    else c ∷ []

unfoldable pub ch_escape_string : Bytes → Bytes
unfolding escape_char
ch_escape_string [] = []
ch_escape_string (c ∷ from) = escape_char c ++ ch_escape_string from

-- `doubles` is `SQL_STR_DOUBLE(ch, true)` of PostgreSQL.
module _ (doubles : ℕ → Bool) where
  unfoldable pub double_char : ℕ → Bytes
  double_char c = if doubles c then c ∷ c ∷ [] else c ∷ []

  unfoldable pub double_all : Bytes → Bytes
  unfolding double_char
  double_all [] = []
  double_all (c ∷ src) = double_char c ++ double_all src

  unfoldable pub ch_quote_literal_internal : Bytes → Bytes
  unfolding double_all
  ch_quote_literal_internal src = quote ∷ (double_all src ++ quote ∷ [])

  unfoldable pub ch_quote_literal : Bytes → Bytes
  unfolding ch_quote_literal_internal
  ch_quote_literal rawstr = ch_quote_literal_internal rawstr

  unfoldable pub ch_append_literal : Bytes → Bytes → Bytes
  unfolding ch_quote_literal_internal
  ch_append_literal buf s = buf ++ ch_quote_literal_internal s

-- A digit of `%02x`.
unfoldable pub hex_digit : ℕ → ℕ
hex_digit d = if ltb d 10 then 48 + d else 87 + d

unfoldable pub bytea_char : ℕ → Bytes
unfolding hex_digit
bytea_char c =
    if c == quote
    then backslash ∷ quote ∷ []
    else if c == backslash
    then backslash ∷ backslash ∷ []
    else if leb 32 c && leb c 126
    then c ∷ []
    else backslash ∷ 120 ∷ hex_digit (c / 16) ∷ hex_digit (c % 16) ∷ []

unfoldable pub bytea_chars : Bytes → Bytes
unfolding bytea_char
bytea_chars [] = []
bytea_chars (c ∷ bytes) = bytea_char c ++ bytea_chars bytes

unfoldable pub deparse_bytea_literal : Bytes → Bytes → Bytes
unfolding bytea_chars
deparse_bytea_literal buf bytes = buf ++ quote ∷ (bytea_chars bytes ++ quote ∷ [])

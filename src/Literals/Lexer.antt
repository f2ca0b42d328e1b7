-- ===== src/Literals/Lexer.antt =====
-- How ClickHouse reads a string literal, by its documentation: `''` and the escapes of a backslash.
use pg_clickhouse.Prelude.{
  ℕ, ◌+◌, ◌*◌, ◌-◌, Bytes, [], ◌∷◌, Option, none, some, ◌==◌, ltb, if◌then◌else◌,
}
use pg_clickhouse.Options.Scan.{quote, backslash}

-- What the next character stands behind.
pub data Mode : Type 0 where
  inside after_quote escape hex_high outside : Mode
  hex_low : ℕ → Mode

unfoldable pub unescape : ℕ → ℕ
unescape c =
    if c == 98
    then 8
    else if c == 102
    then 12
    else if c == 114
    then 13
    else if c == 110
    then 10
    else if c == 116
    then 9
    else if c == 48
    then 0
    else if c == 97
    then 7
    else if c == 118
    then 11
    else c

unfoldable pub unhex : ℕ → ℕ
unhex c = if ltb c 58 then c - 48 else c - 87

unfoldable pub mode_after : Mode → ℕ → Mode
unfolding unhex
mode_after inside c = if c == quote then after_quote else if c == backslash then escape else inside
mode_after after_quote c = if c == quote then inside else outside
mode_after escape c = if c == 120 then hex_high else inside
mode_after hex_high c = hex_low (unhex c)
mode_after (hex_low d) c = inside
mode_after outside c = outside

unfoldable pub emitted : Mode → ℕ → Option ℕ
unfolding unescape unhex
emitted inside c = if c == quote then none else if c == backslash then none else some c
emitted after_quote c = if c == quote then some c else none
emitted escape c = if c == 120 then none else some (unescape c)
emitted hex_high c = none
emitted (hex_low d) c = some (d * 16 + unhex c)
emitted outside c = none

unfoldable pub add : Option ℕ → Option Bytes → Option Bytes
add none r = r
add (some b) none = none
add (some b) (some s) = some (b ∷ s)

-- The value of a literal that ends with the text.
unfoldable pub lex : Mode → Bytes → Option Bytes
unfolding mode_after emitted add
lex inside [] = none
lex after_quote [] = some []
lex escape [] = none
lex hex_high [] = none
lex (hex_low d) [] = none
lex outside [] = none
lex m (c ∷ s) = add (emitted m c) (lex (mode_after m c) s)

unfoldable pub value_of_literal : Bytes → Option Bytes
unfolding lex
value_of_literal [] = none
value_of_literal (c ∷ s) = if c == quote then lex inside s else none

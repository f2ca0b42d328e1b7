-- ===== src/Binary/Params.antt =====
-- The query parameters of `ch_binary_simple_query` of src/binary/select.c.
use pg_clickhouse.Prelude.{
  ℕ, ◌+◌, ◌*◌, ◌≤◌, Bytes, codes, [], ◌∷◌, ◌++◌, Option, none, some, ◌==◌, if◌then◌else◌, length,
  length-append, ◌≡◌, ◌≢◌, sym, ap, ◌∙◌, refl, arith,
}
use pg_clickhouse.Options.Scan.{quote, backslash}
use pg_clickhouse.Literals.Lexer.{
  value_of_literal, lex, inside, mode_after, emitted, add, unhex, unescape,
}
use pg_clickhouse.Literals.Laws.{closed, All-units}

-- The bytes that are written for one byte of a value.
unfoldable pub param_char : ℕ → Bytes
param_char c =
    if c == 0
    then codes "\\x00"
    else if c == 8
    then codes "\\x08"
    else if c == 9
    then codes "\\t"
    else if c == 10
    then codes "\\n"
    else if c == quote
    then codes "\\x27"
    else if c == backslash
    then codes "\\\\"
    else c ∷ []

unfoldable pub param_chars : Bytes → Bytes
unfolding param_char
param_chars [] = []
param_chars (c ∷ raw) = param_char c ++ param_chars raw

-- The value of a parameter; `none` is a NULL.
unfoldable pub param_value : Option Bytes → Bytes
unfolding param_chars
param_value none = codes "'\\N'"
param_value (some raw) = quote ∷ (param_chars raw ++ quote ∷ [])

-- `cap`, the size of the buffer for a value and its NUL.
unfoldable pub param_cap : Bytes → ℕ
param_cap raw = length raw * 4 + 3

length-param_chars : (raw : Bytes) → length (param_chars raw) ≤ length raw * 4
unfolding param_chars
length-param_chars [] = omega arith
length-param_chars (c ∷ raw) =
    let first : length (param_char c) ≤ 4 = unfold param_char in ground arith in
    let both = length-append (param_char c) (param_chars raw) in
    omega (arith, length-param_chars raw)

lex-param_char : (c : ℕ) (s : Bytes) → lex inside (param_char c ++ s) ≡ add (some c) (lex inside s)
unfolding lex mode_after emitted unescape param_char unhex
lex-param_char c s = ground arith

value_of_literal-param : (raw : Bytes) → value_of_literal (param_value (some raw)) ≡ some raw
unfolding value_of_literal param_value
value_of_literal-param raw =
    closed param_char param_chars (λ c. Unit {0}) (unfold param_chars in refl)
      (λ c t. unfold param_chars in refl) (λ c t _. lex-param_char c t) raw (All-units raw)

-- No text is written as NULL is.
param_value-ne-null : (raw : Bytes) → param_value (some raw) ≢ param_value none
param_value-ne-null raw same =
    let reads : value_of_literal (param_value none) ≡ some raw =
      ap value_of_literal (sym same) ∙ value_of_literal-param raw in
    let n : value_of_literal (param_value none) ≡ some (codes "N") =
      unfold value_of_literal param_value lex mode_after emitted unescape add in refl in
    let is_n : raw ≡ codes "N" = cc in
    let bad : length (param_value (some (codes "N"))) ≡ length (param_value none) =
      ap (λ r. length (param_value (some r))) (sym is_n) ∙ ap length same in
    let three : length (param_value (some (codes "N"))) ≡ 3 =
      unfold param_value param_chars param_char in refl in
    let four : length (param_value none) ≡ 4 = unfold param_value in refl in omega arith

-- A parameter is read by the server's rules for literals as the bytes that it has, quotes and
-- backslashes among them; no text is written as NULL is; and the text and its NUL fit in the buffer
-- that is allocated for them.
pub value_of_literal-param_value :
    (raw : Bytes)
    → (value_of_literal (param_value (some raw)) ≡ some raw)
      × (param_value (some raw) ≢ param_value none)
      × (length (param_value (some raw)) + 1 ≤ param_cap raw)
unfolding param_cap
value_of_literal-param_value raw =
    let chars = length-param_chars raw in
    let all = length-append (param_chars raw) (quote ∷ []) in
    (value_of_literal-param raw, param_value-ne-null raw, unfold param_value in omega arith)

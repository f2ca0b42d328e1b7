-- ===== src/Literals/Laws.antt =====
-- What ClickHouse reads in the literals of src/pglink.c and src/deparse.c.
use pg_clickhouse.Prelude.{
  ℕ, ◌*◌, ◌≤◌, ◌<◌, ◌≡◌, refl, Bytes, Bool, ◌||◌, [], ◌∷◌, ◌++◌, some, ◌==◌, arith, All, length,
  length-append, append_assoc, ap, ◌∙◌,
}
use pg_clickhouse.Options.Scan.{quote, backslash}
use pg_clickhouse.Literals.{
  escape_char, ch_escape_string, double_char, double_all, ch_quote_literal_internal,
  ch_quote_literal, hex_digit, bytea_char, bytea_chars, deparse_bytea_literal,
}
use pg_clickhouse.Literals.Lexer.{
  inside, unescape, unhex, mode_after, emitted, add, lex, value_of_literal,
}

lex-escape_char :
    (c : ℕ) (s : Bytes) → lex inside (escape_char c ++ s) ≡ add (some c) (lex inside s)
unfolding lex mode_after emitted unescape escape_char
lex-escape_char c s = ground arith

lex-double_char :
    (doubles : ℕ → Bool) (c : ℕ) (s : Bytes)
    → doubles c ≡ ((c == quote) || (c == backslash))
    → lex inside (double_char doubles c ++ s) ≡ add (some c) (lex inside s)
unfolding lex mode_after emitted unescape double_char
lex-double_char doubles c s h = ground arith

lex-bytea_char :
    (c : ℕ) (s : Bytes) → c < 256 → lex inside (bytea_char c ++ s) ≡ add (some c) (lex inside s)
unfolding lex mode_after emitted unescape bytea_char hex_digit unhex
lex-bytea_char c s h = ground arith

pub All-units : (s : Bytes) → All (λ c. Unit {0}) s
All-units [] = tt
All-units (c ∷ s) = (tt, All-units s)

-- A text that is spelled character by character and then closed.
pub closed :
    (spell : ℕ → Bytes) (spell_all : Bytes → Bytes) (P : ℕ → Type 0)
    → spell_all [] ≡ []
    → ((c : ℕ) (s : Bytes) → spell_all (c ∷ s) ≡ spell c ++ spell_all s)
    → ((c : ℕ) (s : Bytes) → P c → lex inside (spell c ++ s) ≡ add (some c) (lex inside s))
    → (s : Bytes) → All P s
    → lex inside (spell_all s ++ quote ∷ []) ≡ some s
closed spell spell_all P nil cons char [] h = rw nil (unfold lex emitted mode_after add in refl)
closed spell spell_all P nil cons char (c ∷ s) (hc, hs) =
    ap (λ t. lex inside (t ++ quote ∷ [])) (cons c s)
    ∙ ap (lex inside) (append_assoc (spell c) (spell_all s) (quote ∷ []))
    ∙ char c (spell_all s ++ quote ∷ []) hc
    ∙ ap (add (some c)) (closed spell spell_all P nil cons char s hs)
    ∙ unfold add in refl

-- ClickHouse reads a quoted text as that text, whatever bytes it has, if `SQL_STR_DOUBLE` doubles
-- quotes and backslashes and nothing else.
pub value_of_literal-ch_quote_literal :
    (doubles : ℕ → Bool) (s : Bytes)
    → ((c : ℕ) → doubles c ≡ ((c == quote) || (c == backslash)))
    → value_of_literal (ch_quote_literal doubles s) ≡ some s
unfolding value_of_literal ch_quote_literal ch_quote_literal_internal
value_of_literal-ch_quote_literal doubles s h =
    closed (double_char doubles) (double_all doubles) (λ c. Unit {0}) (unfold double_all in refl)
      (λ c t. unfold double_all in refl) (λ c t _. lex-double_char doubles c t (h c)) s
      (All-units s)

-- ClickHouse reads an escaped text between quotes as that text, whatever bytes it has.
pub value_of_literal-ch_escape_string :
    (s : Bytes) → value_of_literal (quote ∷ (ch_escape_string s ++ quote ∷ [])) ≡ some s
unfolding value_of_literal
value_of_literal-ch_escape_string s =
    closed escape_char ch_escape_string (λ c. Unit {0}) (unfold ch_escape_string in refl)
      (λ c t. unfold ch_escape_string in refl) (λ c t _. lex-escape_char c t) s (All-units s)

-- ClickHouse reads the literal of a `bytea` as its bytes.
pub value_of_literal-deparse_bytea_literal :
    (s : Bytes) → All (λ c. c < 256) s → value_of_literal (deparse_bytea_literal [] s) ≡ some s
unfolding value_of_literal deparse_bytea_literal
value_of_literal-deparse_bytea_literal s h =
    closed bytea_char bytea_chars (λ c. c < 256) (unfold bytea_chars in refl)
      (λ c t. unfold bytea_chars in refl) (λ c t b. lex-bytea_char c t b) s h

-- An escaped text fits in the room for it, two bytes for each of its own.
pub length-ch_escape_string : (s : Bytes) → length (ch_escape_string s) ≤ length s * 2
unfolding ch_escape_string
length-ch_escape_string [] = omega arith
length-ch_escape_string (c ∷ s) =
    let first : length (escape_char c) ≤ 2 = unfold escape_char in ground arith in
    let whole = length-append (escape_char c) (ch_escape_string s) in
    let rest = length-ch_escape_string s in omega arith

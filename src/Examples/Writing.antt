-- ===== src/Examples/Writing.antt =====
-- Texts written for ClickHouse, and the theorems about them at these texts.
use pg_clickhouse.Prelude.{
  ℕ, ◌≡◌, ◌≢◌, refl, codes, Bool, true, ◌||◌, [], ◌∷◌, ◌++◌, some, err, ◌==◌, arith, str_eq,
}
use pg_clickhouse.Options.Scan.{quote, backslash}
use pg_clickhouse.Options.Extract.{Details, TlsMode}
use pg_clickhouse.Endpoint.{PortSet, ch_resolve_endpoint}
use pg_clickhouse.Literals.{ch_quote_literal, ch_escape_string, deparse_bytea_literal}
use pg_clickhouse.Literals.Lexer.{value_of_literal}
use pg_clickhouse.Literals.Laws.{
  value_of_literal-ch_quote_literal, value_of_literal-ch_escape_string,
  value_of_literal-deparse_bytea_literal,
}
use pg_clickhouse.Deparse.ToChar.{
  out_of_fuel, refused, translate_to_char_format, match_tok, strip, emit,
}
use pg_clickhouse.Deparse.ToChar.Tokens.{to_char_toks}
use pg_clickhouse.Deparse.ToChar.Total.{translate_to_char_format-total}
use pg_clickhouse.Examples.Parsing.{details}

abbrev doubles : ℕ → Bool
doubles c = (c == quote) || (c == backslash)

quoted : ch_quote_literal doubles (codes "it's") ≡ codes "'it''s'"
unfolding ch_quote_literal
quoted = refl

value_of_literal-ch_quote_literal_example :
    value_of_literal (ch_quote_literal doubles (codes "it's")) ≡ some (codes "it's")
value_of_literal-ch_quote_literal_example =
    value_of_literal-ch_quote_literal doubles (codes "it's") (λ c. refl)

value_of_literal-ch_escape_string_example :
    value_of_literal (quote ∷ (ch_escape_string (codes "it's") ++ quote ∷ [])) ≡ some (codes "it's")
value_of_literal-ch_escape_string_example = value_of_literal-ch_escape_string (codes "it's")

two_bytes : deparse_bytea_literal [] (200 ∷ 39 ∷ []) ≡ codes "'\\xc8\\''"
unfolding deparse_bytea_literal
two_bytes = refl

value_of_literal-deparse_bytea_literal_example :
    value_of_literal (deparse_bytea_literal [] (200 ∷ 39 ∷ [])) ≡ some (200 ∷ 39 ∷ [])
value_of_literal-deparse_bytea_literal_example =
    value_of_literal-deparse_bytea_literal (200 ∷ 39 ∷ []) (omega arith, (omega arith, tt))

ordinal : translate_to_char_format (codes "DDth") ≡ err refused
unfolding translate_to_char_format match_tok strip emit to_char_toks
ordinal = refl

translate_to_char_format-total_example : translate_to_char_format (codes "DDth") ≢ err out_of_fuel
translate_to_char_format-total_example = translate_to_char_format-total (codes "DDth")

abbrev cloud : Details (Unit {0})
cloud = record details { host = codes "a.clickhouse.cloud"; port = 0; tls = TlsMode.auto }

cloud_port : ch_resolve_endpoint cloud PortSet.ports_http ≡ (8443, true)
unfolding ch_resolve_endpoint str_eq
cloud_port = refl

-- ===== src/Options/Scan.antt =====
-- The scanners inside `chfdw_parse_options` of src/option.c. The C code works in place on a copy
-- of its input, the name and the value being parts of it that it terminates; here each scanner
-- takes the input from `cp` on and returns what it read with the input that is left.
use pg_clickhouse.Prelude.{
  ℕ, Bytes, Bool, true, false, [], ◌∷◌, ◌++◌, ◌==◌, is_space, if◌then◌else◌, Result, ok, err, ◌>>=◌,
}

pub data ParseError : Type 0 where
  missing_comma : Bytes → ParseError
  missing_value : Bytes → ParseError
  unterminated_quote : ParseError
  out_of_fuel : ParseError

abbrev pub comma : ℕ
comma = b','

abbrev pub backslash : ℕ
backslash = b'\\'

abbrev pub quote : ℕ
quote = 39

-- `while (isspace(*cp)) cp++`
unfoldable pub skip_spaces : Bytes → Bytes
skip_spaces [] = []
skip_spaces (c ∷ s) = if is_space c then skip_spaces s else c ∷ s

-- The name reaches to the first blank, and the blanks behind it are skipped.
unfoldable pub read_name : Bytes → Bytes × Bytes
unfolding skip_spaces
read_name [] = ([], [])
read_name (c ∷ s) =
    let (n, r) = read_name s in if is_space c then ([], skip_spaces s) else (c ∷ n, r)

-- Behind the blanks that end an unquoted value a comma or the end is wanted. The comma is left.
unfoldable pub end_plain : Bytes → Bytes → Bytes → Result ParseError (Bytes × Bytes)
end_plain pname out [] = ok (out, [])
end_plain pname out (c ∷ s) = if c == comma then ok (out, c ∷ s) else err (missing_comma pname)

-- An unquoted value; `escaped` says that a backslash was read, `out` is what was written so far.
unfoldable pub read_plain : Bytes → Bool → Bytes → Bytes → Result ParseError (Bytes × Bytes)
unfolding end_plain skip_spaces
read_plain pname escaped out [] = ok (out, [])
read_plain pname true out (c ∷ s) = read_plain pname false (out ++ c ∷ []) s
read_plain pname false out (c ∷ s) =
    let rest =
      read_plain pname (c == backslash) (if c == backslash then out else out ++ c ∷ []) s in
    if is_space c
    then end_plain pname out (skip_spaces s)
    else if c == comma
    then ok (out, s)
    else rest

-- The text inside single quotes, up to the closing one.
unfoldable pub read_quoted : Bool → Bytes → Bytes → Result ParseError (Bytes × Bytes)
read_quoted escaped out [] = err unterminated_quote
read_quoted true out (c ∷ s) = read_quoted false (out ++ c ∷ []) s
read_quoted false out (c ∷ s) =
    let rest = read_quoted (c == backslash) (if c == backslash then out else out ++ c ∷ []) s in
    if c == quote then ok (out, s) else rest

-- Behind a quoted value a comma, which is consumed, or the end is wanted.
unfoldable pub end_quoted : Bytes → Bytes → Bytes → Result ParseError (Bytes × Bytes)
end_quoted pname out [] = ok (out, [])
end_quoted pname out (c ∷ s) = if c == comma then ok (out, s) else err (missing_comma pname)

-- The test `cp2 == pval` behind the loop of an unquoted value.
unfoldable pub nonempty : Bytes → Bytes × Bytes → Result ParseError (Bytes × Bytes)
nonempty pname ([], r) = err (missing_value pname)
nonempty pname (c ∷ v, r) = ok (c ∷ v, r)

unfoldable pub read_value : Bytes → Bytes → Result ParseError (Bytes × Bytes)
unfolding read_plain read_quoted end_quoted nonempty
read_value pname [] = err (missing_value pname)
read_value pname (c ∷ s) =
    if c == quote
    then (do (v, r) ← read_quoted false [] s; end_quoted pname v (skip_spaces r))
    else (do p ← read_plain pname false [] (c ∷ s); nonempty pname p)

-- ===== src/Deparse/ToChar.antt =====
-- `chfdw_translate_to_char_format` of src/deparse.c: a `to_char` format for ClickHouse's
-- `formatDateTime`, or a refusal.
pub mod Tokens
pub mod Total
pub mod Format
pub mod Fields
mod Keywords
mod Formats
pub mod Reading
use pg_clickhouse.Prelude.{
  ℕ, zero, suc, Bytes, codes, Bool, true, false, ◌&&◌, ◌||◌, List, [], ◌∷◌, ◌++◌, Option, none,
  some, ◌==◌, if◌then◌else◌, length, Result, ok, err, ◌>>=◌,
}
use pg_clickhouse.Options.Scan.{backslash}
use pg_clickhouse.Deparse.ToChar.Tokens.{ToCharTok, to_char_toks}

-- The function returns false, or the fuel of the model is used up.
pub data Refusal : Type 0 where
  refused out_of_fuel : Refusal

abbrev pub percent : ℕ
percent = 37

abbrev pub double_quote : ℕ
double_quote = 34

-- A character that is passed on, with `%` doubled.
unfoldable pub emit : ℕ → Bytes
emit c = if c == percent then percent ∷ percent ∷ [] else c ∷ []

-- What follows a prefix, as `strncmp(p, pg, strlen(pg)) == 0` tests it.
unfoldable pub strip : Bytes → Bytes → Option Bytes
strip [] s = some s
strip (t ∷ pg) [] = none
strip (t ∷ pg) (c ∷ s) = let rest = strip pg s in if c == t then rest else none

unfoldable pub first_of :
    Option Bytes → Option Bytes → Option (Option Bytes × Bytes) → Option (Option Bytes × Bytes)
first_of ch none others = others
first_of ch (some rest) others = some (ch, rest)

-- The first keyword that the text starts with, and what follows it.
unfoldable pub match_tok : List ToCharTok → Bytes → Option (Option Bytes × Bytes)
unfolding strip first_of
match_tok [] s = none
match_tok (t ∷ toks) s = first_of t.ch (strip t.pg s) (match_tok toks s)

-- The inside of a quoted literal and what follows its end; the flag tells that a backslash stands
-- before it, which escapes any character but the end of the text.
unfoldable pub read_literal : Bool → Bytes → Bytes × Bytes
unfolding emit
read_literal true [] = (backslash ∷ [], [])
read_literal false [] = ([], [])
read_literal true (c ∷ s) = let (more, rest) = read_literal false s in (emit c ++ more, rest)
read_literal false (c ∷ s) =
    let (more, rest) = read_literal (c == backslash) s in
    if c == backslash
    then (more, rest)
    else if c == double_quote
    then ([], s)
    else (emit c ++ more, rest)

unfoldable pub is_th : Bytes → Bool
is_th [] = false
is_th (c ∷ []) = false
is_th (c ∷ d ∷ s) = ((c == 84) || (c == 116)) && ((d == 72) || (d == 104))

-- What follows `\\"`.
unfoldable pub escaped_quote : Bytes → Option Bytes
escaped_quote [] = none
escaped_quote (c ∷ []) = none
escaped_quote (c ∷ d ∷ s) = if (c == backslash) && (d == double_quote) then some s else none

unfoldable pub after : Bytes → Result Refusal Bytes → Result Refusal Bytes
after out rest = rest >>= λ more. ok (out ++ more)

-- The search for a keyword at a character, with the loop to go on.
unfoldable pub keyword :
    ℕ
    → Bytes
    → (Bool → Bytes → Result Refusal Bytes)
    → Option (Option Bytes × Bytes)
    → Result Refusal Bytes
unfolding after emit
keyword c s loop none = after (emit c) (loop false s)
keyword c s loop (some (none, rest)) = err refused
keyword c s loop (some (some ch, rest)) = after ch (loop true rest)

unfoldable pub unquoted :
    ℕ → Bytes → (Bool → Bytes → Result Refusal Bytes) → Option Bytes → Result Refusal Bytes
unfolding after keyword match_tok to_char_toks
unquoted c s loop (some rest) = after (double_quote ∷ []) (loop false rest)
unquoted c s loop none = keyword c s loop (match_tok to_char_toks (c ∷ s))

-- One round of the loop at a character.
unfoldable pub round :
    Bool → ℕ → Bytes → (Bool → Bytes → Result Refusal Bytes) → Result Refusal Bytes
unfolding is_th read_literal escaped_quote after unquoted
round just_keyword c s loop =
    if just_keyword && is_th (c ∷ s)
    then err refused
    else if c == double_quote
    then after (read_literal false s).0 (loop false (read_literal false s).1)
    else unquoted c s loop (escaped_quote (c ∷ s))

unfoldable pub translate_loop : ℕ → Bool → Bytes → Result Refusal Bytes
unfolding round
translate_loop zero just_keyword p = err out_of_fuel
translate_loop (suc n) just_keyword [] = ok []
translate_loop (suc n) just_keyword (c ∷ s) = round just_keyword c s (translate_loop n)

unfoldable pub translate_to_char_format : Bytes → Result Refusal Bytes
unfolding translate_loop
translate_to_char_format pgfmt = translate_loop (suc (length pgfmt)) false pgfmt

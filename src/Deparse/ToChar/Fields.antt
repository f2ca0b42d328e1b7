-- ===== src/Deparse/ToChar/Fields.antt =====
-- What PostgreSQL reads in a `to_char` format and ClickHouse in a `formatDateTime` format, apart
-- from the function of src/deparse.c that translates one into the other.
use pg_clickhouse.Prelude.{
  ℕ, Bytes, codes, Bool, true, false, ◌||◌, ◌≡◌, ◌≢◌, ◌≤◌, ◌⊎◌, List, [], ◌∷◌, ◌++◌, All, ◌==◌,
  if◌then◌else◌, length, str_eq,
}

-- A part of a time that both can write.
pub data Field : Type 0 where
  year year_of_century quarter month month_name : Field
  day day_of_year weekday : Field
  hour hour12 minute second half_of_day : Field

-- The keywords of PostgreSQL that ask for a field.
unfoldable pub spellings : Field → List Bytes
spellings year = codes "YYYY" ∷ codes "yyyy" ∷ []
spellings year_of_century = codes "YY" ∷ codes "yy" ∷ []
spellings quarter = codes "Q" ∷ codes "q" ∷ []
spellings month = codes "MM" ∷ codes "mm" ∷ []
spellings month_name = codes "Mon" ∷ []
spellings day = codes "DD" ∷ codes "dd" ∷ []
spellings day_of_year = codes "DDD" ∷ codes "ddd" ∷ []
spellings weekday = codes "Dy" ∷ []
spellings hour = codes "HH24" ∷ codes "hh24" ∷ []
spellings hour12 = codes "HH12" ∷ codes "hh12" ∷ codes "HH" ∷ codes "hh" ∷ []
spellings minute = codes "MI" ∷ codes "mi" ∷ []
spellings second = codes "SS" ∷ codes "ss" ∷ []
spellings half_of_day = codes "AM" ∷ codes "PM" ∷ []

-- The letter of ClickHouse's directive for it.
unfoldable pub letter : Field → ℕ
letter year = b'Y'
letter year_of_century = b'y'
letter quarter = b'Q'
letter month = b'm'
letter month_name = b'b'
letter day = b'd'
letter day_of_year = b'j'
letter weekday = b'a'
letter hour = b'H'
letter hour12 = b'I'
letter minute = b'i'
letter second = b'S'
letter half_of_day = b'p'

unfoldable pub is_one_of : Bytes → List Bytes → Bool
is_one_of s [] = false
is_one_of s (t ∷ ts) = str_eq s t || is_one_of s ts

-- What stands in a format: a character that is written as it is, or a directive.
pub data Item : Type 0 where
  character directive : ℕ → Item

-- ClickHouse's reading of a format: `%%` is a character, `%` with another letter a directive.
unfoldable pub read_format : Bytes → List Item
read_format [] = []
read_format (c ∷ []) = character c ∷ []
read_format (c ∷ d ∷ s) =
    let after_one = read_format (d ∷ s) in
    let after_two = read_format s in
    if c == 37
    then (if d == 37 then character 37 else directive d) ∷ after_two
    else character c ∷ after_one

-- The inside of a literal in double quotes, what it writes and what follows it. A backslash escapes
-- any character; the end of the format ends the literal too.
pub data Quoted : Bytes → List Item → Bytes → Type 0 where
  closes : {s : Bytes} → Quoted (b'"' ∷ s) [] s
  unclosed : Quoted [] [] []
  escapes :
      {c : ℕ} {s rest : Bytes} {items : List Item}
      → Quoted s items rest
      → Quoted (b'\\' ∷ c ∷ s) (character c ∷ items) rest
  lone_backslash : Quoted (b'\\' ∷ []) (character b'\\' ∷ []) []
  itself :
      {c : ℕ} {s rest : Bytes} {items : List Item}
      → c ≢ b'"'
      → c ≢ b'\\'
      → Quoted s items rest
      → Quoted (c ∷ s) (character c ∷ items) rest

-- The suffix TH, in any case, of a number.
unfoldable pub StartsTh : Bytes → Type 0
StartsTh [] = ⊥
StartsTh (c ∷ []) = ⊥
StartsTh (c ∷ d ∷ s) = ((c ≡ b'T') ⊎ (c ≡ b't')) × ((d ≡ b'H') ⊎ (d ≡ b'h'))

unfoldable pub StartsEscaped : Bytes → Type 0
StartsEscaped [] = ⊥
StartsEscaped (c ∷ []) = ⊥
StartsEscaped (c ∷ d ∷ s) = (c ≡ b'\\') × (d ≡ b'"')

abbrev pub IsPrefix : Bytes → Bytes → Type 0
IsPrefix p s = (rest : Bytes) × (p ++ rest ≡ s)

-- PostgreSQL's other patterns and modifiers, which ClickHouse has no directive for.
abbrev below_second : List Bytes
below_second =
    codes "MS"
    ∷ codes "ms"
    ∷ codes "US"
    ∷ codes "us"
    ∷ codes "FF1"
    ∷ codes "FF2"
    ∷ codes "FF3"
    ∷ codes "FF4"
    ∷ codes "FF5"
    ∷ codes "FF6"
    ∷ codes "ff1"
    ∷ codes "ff2"
    ∷ codes "ff3"
    ∷ codes "ff4"
    ∷ codes "ff5"
    ∷ codes "ff6"
    ∷ codes "SSSS"
    ∷ codes "ssss"
    ∷ codes "SSSSS"
    ∷ codes "sssss"
    ∷ []

abbrev half_patterns : List Bytes
half_patterns =
    codes "am" ∷ codes "pm" ∷ codes "A.M." ∷ codes "a.m." ∷ codes "P.M." ∷ codes "p.m." ∷ []

abbrev year_patterns : List Bytes
year_patterns =
    codes "Y,YYY"
    ∷ codes "y,yyy"
    ∷ codes "YYY"
    ∷ codes "yyy"
    ∷ codes "Y"
    ∷ codes "y"
    ∷ codes "IYYY"
    ∷ codes "iyyy"
    ∷ codes "IYY"
    ∷ codes "iyy"
    ∷ codes "IY"
    ∷ codes "iy"
    ∷ codes "I"
    ∷ codes "i"
    ∷ codes "CC"
    ∷ codes "cc"
    ∷ []

abbrev era_patterns : List Bytes
era_patterns =
    codes "BC"
    ∷ codes "bc"
    ∷ codes "AD"
    ∷ codes "ad"
    ∷ codes "B.C."
    ∷ codes "b.c."
    ∷ codes "A.D."
    ∷ codes "a.d."
    ∷ []

abbrev month_patterns : List Bytes
month_patterns =
    codes "MONTH"
    ∷ codes "Month"
    ∷ codes "month"
    ∷ codes "MON"
    ∷ codes "mon"
    ∷ codes "RM"
    ∷ codes "rm"
    ∷ []

abbrev day_patterns : List Bytes
day_patterns =
    codes "DAY"
    ∷ codes "Day"
    ∷ codes "day"
    ∷ codes "DY"
    ∷ codes "dy"
    ∷ codes "IDDD"
    ∷ codes "iddd"
    ∷ codes "ID"
    ∷ codes "id"
    ∷ codes "D"
    ∷ codes "d"
    ∷ codes "J"
    ∷ codes "j"
    ∷ []

abbrev week_patterns : List Bytes
week_patterns = codes "W" ∷ codes "w" ∷ codes "WW" ∷ codes "ww" ∷ codes "IW" ∷ codes "iw" ∷ []

abbrev zone_patterns : List Bytes
zone_patterns =
    codes "TZ"
    ∷ codes "tz"
    ∷ codes "TZH"
    ∷ codes "tzh"
    ∷ codes "TZM"
    ∷ codes "tzm"
    ∷ codes "OF"
    ∷ codes "of"
    ∷ []

abbrev modifiers : List Bytes
modifiers = codes "FM" ∷ codes "fm" ∷ codes "FX" ∷ codes "fx" ∷ codes "TM" ∷ codes "tm" ∷ []

-- PostgreSQL's keywords and modifiers. The suffix TH is apart, and SP, which PostgreSQL does not
-- implement, is not among them.
unfoldable pub keywords : List Bytes
unfolding spellings
keywords =
    spellings year
    ++ spellings year_of_century
    ++ spellings quarter
    ++ spellings month
    ++ spellings month_name
    ++ spellings day
    ++ spellings day_of_year
    ++ spellings weekday
    ++ spellings hour
    ++ spellings hour12
    ++ spellings minute
    ++ spellings second
    ++ spellings half_of_day
    ++ below_second
    ++ half_patterns
    ++ year_patterns
    ++ era_patterns
    ++ month_patterns
    ++ day_patterns
    ++ week_patterns
    ++ zone_patterns
    ++ modifiers

-- No keyword of PostgreSQL that is longer than `n` starts the text.
abbrev pub NoneLonger : ℕ → Bytes → Type 0
NoneLonger n s = All (λ pg. IsPrefix pg s → length pg ≤ n) keywords

abbrev pub NoKeyword : Bytes → Type 0
NoKeyword s = All (λ pg. ¬ IsPrefix pg s) keywords

-- PostgreSQL's reading of a format: literals in double quotes, `\\"` for a double quote, the longest
-- keyword, without a suffix, and any other character for itself.
pub data Reads : Bytes → List Item → Type 0 where
  ends : Reads [] []
  quoted :
      {s rest : Bytes} {items more : List Item}
      → Quoted s items rest
      → Reads rest more
      → Reads (b'"' ∷ s) (items ++ more)
  escaped :
      {s : Bytes} {more : List Item}
      → Reads s more
      → Reads (b'\\' ∷ b'"' ∷ s) (character b'"' ∷ more)
  keyword :
      {s : Bytes} {more : List Item} (f : Field) (pg rest : Bytes)
      → is_one_of pg (spellings f) ≡ true
      → pg ++ rest ≡ s
      → NoneLonger (length pg) s
      → ¬ StartsTh rest
      → Reads rest more
      → Reads s (directive (letter f) ∷ more)
  other :
      {c : ℕ} {s : Bytes} {more : List Item}
      → c ≢ b'"'
      → ¬ StartsEscaped (c ∷ s)
      → NoKeyword (c ∷ s)
      → Reads s more
      → Reads (c ∷ s) (character c ∷ more)

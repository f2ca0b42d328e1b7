-- ===== src/Deparse/ToChar/Tokens.antt =====
-- The keywords of `to_char_toks` in src/deparse.c.
use pg_clickhouse.Prelude.{Bytes, codes, List, [], ◌∷◌, Option, none, some}

-- `ToCharTok`: `ch` is `none` for a keyword that is refused.
pub record ToCharTok : Type 0 where
  pub pg : Bytes
  pub ch : Option Bytes

abbrev refuse : Bytes → ToCharTok
refuse pg = record { pg = pg; ch = none }

abbrev emit_as : Bytes → Bytes → ToCharTok
emit_as pg ch = record { pg = pg; ch = some ch }

unfoldable pub to_char_toks : List ToCharTok
to_char_toks =
    refuse (codes "Y,YYY")
    ∷ refuse (codes "y,yyy")
    ∷ refuse (codes "SSSSS")
    ∷ refuse (codes "sssss")
    ∷ refuse (codes "MONTH")
    ∷ refuse (codes "Month")
    ∷ refuse (codes "month")
    ∷ emit_as (codes "YYYY") (codes "%Y")
    ∷ emit_as (codes "yyyy") (codes "%Y")
    ∷ emit_as (codes "HH24") (codes "%H")
    ∷ emit_as (codes "hh24") (codes "%H")
    ∷ emit_as (codes "HH12") (codes "%I")
    ∷ emit_as (codes "hh12") (codes "%I")
    ∷ refuse (codes "IYYY")
    ∷ refuse (codes "iyyy")
    ∷ refuse (codes "IDDD")
    ∷ refuse (codes "iddd")
    ∷ refuse (codes "SSSS")
    ∷ refuse (codes "ssss")
    ∷ refuse (codes "A.D.")
    ∷ refuse (codes "a.d.")
    ∷ refuse (codes "B.C.")
    ∷ refuse (codes "b.c.")
    ∷ refuse (codes "P.M.")
    ∷ refuse (codes "p.m.")
    ∷ refuse (codes "A.M.")
    ∷ refuse (codes "a.m.")
    ∷ refuse (codes "YYY")
    ∷ refuse (codes "yyy")
    ∷ emit_as (codes "DDD") (codes "%j")
    ∷ emit_as (codes "ddd") (codes "%j")
    ∷ refuse (codes "DAY")
    ∷ refuse (codes "day")
    ∷ refuse (codes "Day")
    ∷ emit_as (codes "Mon") (codes "%b")
    ∷ refuse (codes "MON")
    ∷ refuse (codes "mon")
    ∷ refuse (codes "IYY")
    ∷ refuse (codes "iyy")
    ∷ refuse (codes "FF1")
    ∷ refuse (codes "FF2")
    ∷ refuse (codes "FF3")
    ∷ refuse (codes "FF4")
    ∷ refuse (codes "FF5")
    ∷ refuse (codes "FF6")
    ∷ refuse (codes "ff1")
    ∷ refuse (codes "ff2")
    ∷ refuse (codes "ff3")
    ∷ refuse (codes "ff4")
    ∷ refuse (codes "ff5")
    ∷ refuse (codes "ff6")
    ∷ refuse (codes "TZH")
    ∷ refuse (codes "tzh")
    ∷ refuse (codes "TZM")
    ∷ refuse (codes "tzm")
    ∷ refuse (codes "AD")
    ∷ refuse (codes "ad")
    ∷ emit_as (codes "AM") (codes "%p")
    ∷ emit_as (codes "PM") (codes "%p")
    ∷ refuse (codes "am")
    ∷ refuse (codes "pm")
    ∷ refuse (codes "BC")
    ∷ refuse (codes "bc")
    ∷ refuse (codes "CC")
    ∷ refuse (codes "cc")
    ∷ emit_as (codes "DD") (codes "%d")
    ∷ emit_as (codes "dd") (codes "%d")
    ∷ emit_as (codes "Dy") (codes "%a")
    ∷ refuse (codes "DY")
    ∷ refuse (codes "dy")
    ∷ refuse (codes "FM")
    ∷ refuse (codes "fm")
    ∷ refuse (codes "FX")
    ∷ refuse (codes "fx")
    ∷ emit_as (codes "HH") (codes "%I")
    ∷ emit_as (codes "hh") (codes "%I")
    ∷ refuse (codes "ID")
    ∷ refuse (codes "id")
    ∷ refuse (codes "IW")
    ∷ refuse (codes "iw")
    ∷ refuse (codes "IY")
    ∷ refuse (codes "iy")
    ∷ emit_as (codes "MI") (codes "%i")
    ∷ emit_as (codes "mi") (codes "%i")
    ∷ emit_as (codes "MM") (codes "%m")
    ∷ emit_as (codes "mm") (codes "%m")
    ∷ refuse (codes "MS")
    ∷ refuse (codes "ms")
    ∷ refuse (codes "OF")
    ∷ refuse (codes "of")
    ∷ refuse (codes "RM")
    ∷ refuse (codes "rm")
    ∷ emit_as (codes "SS") (codes "%S")
    ∷ emit_as (codes "ss") (codes "%S")
    ∷ refuse (codes "TM")
    ∷ refuse (codes "tm")
    ∷ refuse (codes "TZ")
    ∷ refuse (codes "tz")
    ∷ refuse (codes "US")
    ∷ refuse (codes "us")
    ∷ refuse (codes "WW")
    ∷ refuse (codes "ww")
    ∷ emit_as (codes "YY") (codes "%y")
    ∷ emit_as (codes "yy") (codes "%y")
    ∷ refuse (codes "D")
    ∷ refuse (codes "d")
    ∷ refuse (codes "I")
    ∷ refuse (codes "i")
    ∷ refuse (codes "J")
    ∷ refuse (codes "j")
    ∷ emit_as (codes "Q") (codes "%Q")
    ∷ emit_as (codes "q") (codes "%Q")
    ∷ refuse (codes "W")
    ∷ refuse (codes "w")
    ∷ refuse (codes "Y")
    ∷ refuse (codes "y")
    ∷ []

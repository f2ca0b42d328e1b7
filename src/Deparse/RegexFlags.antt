-- ===== src/Deparse/RegexFlags.antt =====
-- The flags of regular expressions: `appendRegexFlags` of src/deparse.c and `regex_flags_ok` of
-- src/shipable.c.
use pg_clickhouse.Prelude.{
  ℕ, Bytes, codes, Bool, true, false, ◌||◌, [], ◌∷◌, ◌++◌, ◌==◌, if◌then◌else◌,
}

-- The bits of `flags`.
pub record Flags : Type 0 where
  pub i : Bool
  pub m : Bool
  pub p : Bool
  pub s : Bool
  pub w : Bool

-- The cases of the `switch`.
pub data Case : Type 0 where
  case_i case_m case_p case_s case_t case_w other : Case

unfoldable pub case_of : ℕ → Case
case_of c =
    if c == 105
    then case_i
    else if (c == 109) || (c == 110)
    then case_m
    else if c == 112
    then case_p
    else if c == 115
    then case_s
    else if c == 116
    then case_t
    else if c == 119
    then case_w
    else other

unfoldable pub apply_flag : Case → Flags → Flags
apply_flag case_i f = record f { i = true }
apply_flag case_m f = record f { m = true; s = false; p = false; w = false }
apply_flag case_p f = record f { p = true; m = false; s = false; w = false }
apply_flag case_s f = record f { s = true; m = false; p = false; w = false }
apply_flag case_t f = f
apply_flag case_w f = record f { w = true; m = false; p = false; s = false }
apply_flag other f = f

unfoldable pub read_flags : Flags → Bytes → Flags
unfolding apply_flag case_of
read_flags f [] = f
read_flags f (c ∷ str) = read_flags (apply_flag (case_of c) f) str

unfoldable pub write_flags : Flags → Bytes
write_flags f =
    (if f.i then codes "i" else [])
    ++ (if f.m then codes "m-s" else [])
    ++ (if f.p then codes "-s" else [])
    ++ (if f.s then codes "s" else [])
    ++ (if f.w then codes "m" else [])

abbrev pub no_flags : Flags
no_flags = record { i = false; m = false; p = false; s = false; w = false }

unfoldable pub append_regex_flags : Bytes → Bytes → Bytes
unfolding read_flags write_flags
append_regex_flags buf str = buf ++ write_flags (read_flags no_flags str)

unfoldable pub regex_flags_ok : Bytes → Bool → Bool
unfolding case_of
regex_flags_ok [] global_ok = true
regex_flags_ok (c ∷ flags) global_ok =
    let rest = regex_flags_ok flags global_ok in
    if c == 103 then (if global_ok then rest else false) else elim (case_of c) [
      | case_i ↦ rest
      | case_m ↦ rest
      | case_p ↦ rest
      | case_s ↦ rest
      | case_t ↦ rest
      | case_w ↦ rest
      | other ↦ false
    ]

-- How newlines are treated: each of these flags replaces the one before.
pub data Newlines : Type 0 where
  as_default as_m as_p as_s as_w : Newlines

unfoldable pub next_newlines : Case → Newlines → Newlines
next_newlines case_i n = n
next_newlines case_m n = as_m
next_newlines case_p n = as_p
next_newlines case_s n = as_s
next_newlines case_t n = n
next_newlines case_w n = as_w
next_newlines other n = n

-- The last of the flags.
unfoldable pub last_newlines : Newlines → Bytes → Newlines
unfolding next_newlines
last_newlines n [] = n
last_newlines n (c ∷ str) = last_newlines (next_newlines (case_of c) n) str

unfoldable pub text_of_newlines : Newlines → Bytes
text_of_newlines as_default = []
text_of_newlines as_m = codes "m-s"
text_of_newlines as_p = codes "-s"
text_of_newlines as_s = codes "s"
text_of_newlines as_w = codes "m"

unfoldable pub is_case_i : Case → Bool
is_case_i case_i = true
is_case_i case_m = false
is_case_i case_p = false
is_case_i case_s = false
is_case_i case_t = false
is_case_i case_w = false
is_case_i other = false

-- Whether `i` is one of the flags.
unfoldable pub is_insensitive : Bool → Bytes → Bool
unfolding is_case_i
is_insensitive b [] = b
is_insensitive b (c ∷ str) = is_insensitive (b || is_case_i (case_of c)) str

flags_of : Bool → Newlines → Flags
flags_of b as_default = record { i = b; m = false; p = false; s = false; w = false }
flags_of b as_m = record { i = b; m = true; p = false; s = false; w = false }
flags_of b as_p = record { i = b; m = false; p = true; s = false; w = false }
flags_of b as_s = record { i = b; m = false; p = false; s = true; w = false }
flags_of b as_w = record { i = b; m = false; p = false; s = false; w = true }

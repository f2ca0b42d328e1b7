-- ===== src/Options/Extract/Port.antt =====
-- The port option in `chfdw_extract_options` of src/option.c, read by the C library's `strtol` in
-- base ten. A `long` has 64 bits.
use pg_clickhouse.Prelude.{
  is_digit, ℕ, ◌+◌, ◌-◌, ◌*◌, ◌^◌, ◌≤◌, ◌<◌, ◌≡◌, refl, Bytes, Bool, true, false, ◌&&◌, [], ◌∷◌,
  Option, none, some, arith, ltb, leb, ◌==◌, if◌then◌else◌, is_space, All, min,
}
use pg_clickhouse.Options.Scan.{skip_spaces}

-- The number that the digits at the front spell behind `n`, and what follows them.
unfoldable pub digits : ℕ → Bytes → ℕ × Bytes
unfolding is_digit
digits n [] = (n, [])
digits n (c ∷ s) =
    let more = digits (n * 10 + (c - b'0')) s in if is_digit c then more else (n, c ∷ s)

-- The sign, the magnitude and the end pointer.
pub record Long : Type 0 where
  pub negative : Bool
  pub magnitude : ℕ
  pub rest : Bytes

abbrev pub long_max : ℕ
long_max = 2 ^ 63 - 1

-- Out of range the value is clamped. Without a digit the value is 0 and the end is the start.
unfoldable pub strtol_digits : Bytes → Bool → Bytes → Long
unfolding digits
strtol_digits start negative [] = record { negative = false; magnitude = 0; rest = start }
strtol_digits start negative (c ∷ s) =
    if is_digit c
    then record {
      negative = negative;
      magnitude = min long_max (digits 0 (c ∷ s)).0;
      rest = (digits 0 (c ∷ s)).1;
    }
    else record { negative = false; magnitude = 0; rest = start }

unfoldable pub strtol_sign : Bytes → Bytes → Long
unfolding strtol_digits
strtol_sign start [] = record { negative = false; magnitude = 0; rest = start }
strtol_sign start (c ∷ s) =
    if c == b'-'
    then strtol_digits start true s
    else if c == b'+'
    then strtol_digits start false s
    else strtol_digits start false (c ∷ s)

unfoldable pub strtol : Bytes → Long
unfolding strtol_sign skip_spaces
strtol s = strtol_sign s (skip_spaces s)

abbrev pub int_max : ℕ
int_max = 2147483647

unfoldable pub at_end : Bytes → Bool
at_end [] = true
at_end (c ∷ s) = false

-- The new port; `none` leaves the old one.
unfoldable pub port_of : Long → Option ℕ
unfolding at_end
port_of v =
    if leb v.magnitude int_max && ltb 0 v.magnitude && at_end v.rest
    then (if v.negative then none else some v.magnitude)
    else none

unfoldable pub parse_port : Bytes → Option ℕ
unfolding strtol port_of
parse_port s = port_of (strtol s)

-- A port that is taken is a positive `int`.
pub parse_port_bounds : (s : Bytes) {p : ℕ} → parse_port s ≡ some p → (0 < p) × (p ≤ int_max)
unfolding parse_port port_of
parse_port_bounds s {p} h = by_long (strtol s) h
  where
    by_long : (v : Long) → port_of v ≡ some p → (0 < p) × (p ≤ int_max)
    by_long v e = ground arith

abbrev pub IsDigit : ℕ → Type 0
IsDigit c = (b'0' ≤ c) × (c ≤ b'9')

-- The number that decimal digits spell.
unfoldable pub value : ℕ → Bytes → ℕ
value n [] = n
value n (c ∷ s) = value (n * 10 + (c - b'0')) s

digits-value : (n : ℕ) (s : Bytes) → All IsDigit s → digits n s ≡ (value n s, [])
unfolding digits value
digits-value n [] h = refl
digits-value n (c ∷ s) (hc, h) =
    let digit : is_digit c ≡ true = unfold is_digit in ground arith in
    rw digit (digits-value (n * 10 + (c - b'0')) s h)

strtol-digits :
    (c : ℕ) (s : Bytes)
    → All IsDigit (c ∷ s)
    → strtol (c ∷ s)
      ≡ record { negative = false; magnitude = min long_max (value 0 (c ∷ s)); rest = [] }
unfolding strtol
strtol-digits c s (hc, h) =
    let solid : is_space c ≡ false = unfold is_space in ground arith in
    let unsigned : strtol_sign (c ∷ s) (c ∷ s) ≡ strtol_digits (c ∷ s) false (c ∷ s) =
      unfold strtol_sign in ground arith in
    let digit : is_digit c ≡ true = unfold is_digit in ground arith in
    let skipped : skip_spaces (c ∷ s) ≡ c ∷ s = unfold skip_spaces in rw solid in
    rw (skipped, unsigned)
      (unfold strtol_digits value in rw (digit, digits-value (0 + (c - b'0')) s h))

port_of-clamped :
    (n : ℕ)
    → port_of (record { negative = false; magnitude = min long_max n; rest = [] })
      ≡ (if ltb 0 n && leb n int_max then some n else none)
unfolding port_of
port_of-clamped n = ground arith

-- Every spelling of a port in decimal digits, leading zeros included, is taken for the number that
-- it spells, and one that spells zero or a number too large is ignored.
pub parse_port-digits :
    (c : ℕ) (s : Bytes)
    → All IsDigit (c ∷ s)
    → parse_port (c ∷ s) ≡ (
        if ltb 0 (value 0 (c ∷ s)) && leb (value 0 (c ∷ s)) int_max
        then some (value 0 (c ∷ s))
        else none)
unfolding parse_port
parse_port-digits c s h = rw (strtol-digits c s h) (port_of-clamped (value 0 (c ∷ s)))

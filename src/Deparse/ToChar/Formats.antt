-- ===== src/Deparse/ToChar/Formats.antt =====
-- How ClickHouse reads the parts of a format that `chfdw_translate_to_char_format` of src/deparse.c
-- writes.
use pg_clickhouse.Prelude.{
  ℕ, ◌≡◌, refl, ap, sym, Bytes, true, false, ◌&&◌, [], ◌∷◌, ◌++◌, ◌==◌, if◌then◌else◌, inl, inr,
  Bool-cases, and_true, not-true, arith, ◌∙◌,
}
use pg_clickhouse.Deparse.ToChar.{percent, emit}
use pg_clickhouse.Deparse.ToChar.Format.{is_format, is_directive, directives}
use pg_clickhouse.Deparse.ToChar.Fields.{
  Field, letter, character, directive, read_format, year, year_of_century, quarter, month,
  month_name, day, day_of_year, weekday, hour, hour12, minute, second, half_of_day,
}

pub read_format-plain :
    (c : ℕ) (s : Bytes) → (c == percent) ≡ false → read_format (c ∷ s) ≡ character c ∷ read_format s
unfolding read_format
read_format-plain c [] n = refl
read_format-plain c (d ∷ s) n = rw n refl

pub read_format-emit : (c : ℕ) (s : Bytes) → read_format (emit c ++ s) ≡ character c ∷ read_format s
unfolding emit
read_format-emit c s = elim (Bool-cases (c == percent)) [
  | inl y ↦
      let same : percent ≡ c = ground (arith, y) in
      rw y (unfold read_format in ap (λ k. character k ∷ read_format s) same)
  | inr n ↦ rw n (read_format-plain c s n)
]

read_format-percent :
    (c d : ℕ) (s : Bytes)
    → (c == percent) ≡ true
    → read_format (c ∷ d ∷ s)
      ≡ (if d == percent then character percent else directive d) ∷ read_format s
unfolding read_format
read_format-percent c d s y = rw y refl

pub read_format-append :
    (a b : Bytes) → is_format a ≡ true → read_format (a ++ b) ≡ read_format a ++ read_format b
unfolding is_format
read_format-append [] b h = unfold read_format in refl
read_format-append (c ∷ []) b h =
    read_format-plain c b (not-true (c == percent) h) ∙ unfold read_format in refl
read_format-append (c ∷ d ∷ a) b h = elim (Bool-cases (c == percent)) [
  | inl y ↦
      let parts : (if c == percent
            then is_directive d directives && is_format a
            else is_format (d ∷ a))
          ≡ true =
        h in
      let (_, more) = and_true (is_directive d directives) (is_format a) (rw y at parts) in
      let rest = read_format-append a b more in
      read_format-percent c d (a ++ b) y
      ∙ ap (λ t. (if d == percent then character percent else directive d) ∷ t) rest
      ∙ sym (ap (λ t. t ++ read_format b) (read_format-percent c d a y))
  | inr n ↦
      let parts : (if c == percent
            then is_directive d directives && is_format a
            else is_format (d ∷ a))
          ≡ true =
        h in
      let rest = read_format-append (d ∷ a) b (rw n at parts) in
      read_format-plain c (d ∷ a ++ b) n
      ∙ ap (λ t. character c ∷ t) rest
      ∙ sym (ap (λ t. t ++ read_format b) (read_format-plain c (d ∷ a) n))
]

pub read_format-letter :
    (f : Field) (s : Bytes)
    → read_format (percent ∷ letter f ∷ s) ≡ directive (letter f) ∷ read_format s
unfolding read_format letter
read_format-letter year s = refl
read_format-letter year_of_century s = refl
read_format-letter quarter s = refl
read_format-letter month s = refl
read_format-letter month_name s = refl
read_format-letter day s = refl
read_format-letter day_of_year s = refl
read_format-letter weekday s = refl
read_format-letter hour s = refl
read_format-letter hour12 s = refl
read_format-letter minute s = refl
read_format-letter second s = refl
read_format-letter half_of_day s = refl

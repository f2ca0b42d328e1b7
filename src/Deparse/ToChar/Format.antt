-- ===== src/Deparse/ToChar/Format.antt =====
-- What `chfdw_translate_to_char_format` of src/deparse.c writes is a format.
use pg_clickhouse.Prelude.{
  ℕ, zero, suc, ◌≡◌, refl, sym, subst, Bytes, codes, Bool, true, false, ◌&&◌, ◌||◌, not, List, [],
  ◌∷◌, ◌++◌, Option, none, some, ◌==◌, if◌then◌else◌, length, Result, ok, err, >>=-eq-ok,
  ok-injective, inl, inr, Bool-cases, and_true, not-true,
}
use pg_clickhouse.Options.Scan.{backslash}
use pg_clickhouse.Deparse.ToChar.Tokens.{ToCharTok, to_char_toks}
use pg_clickhouse.Deparse.ToChar.{
  Refusal, refused, percent, double_quote, emit, match_tok, read_literal, strip, is_th,
  escaped_quote, after, keyword, unquoted, round, translate_loop, translate_to_char_format,
}
use pg_clickhouse.Deparse.ToChar.Total.{first_of-cases}

-- The letters of the directives that stand in the table, and `%` for itself.
unfoldable pub is_directive : ℕ → List ℕ → Bool
is_directive c [] = false
is_directive c (d ∷ ds) = (c == d) || is_directive c ds

abbrev pub directives : List ℕ
directives = codes "YyHIjbpdaimSQ%"

-- A text in which each `%` starts one of these directives.
unfoldable pub is_format : Bytes → Bool
unfolding is_directive
is_format [] = true
is_format (c ∷ []) = not (c == percent)
is_format (c ∷ d ∷ s) =
    let after_one = is_format (d ∷ s) in
    let after_two = is_format s in
    if c == percent then is_directive d directives && after_two else after_one

is_format-plain :
    (c : ℕ) (b : Bytes) → (c == percent) ≡ false → is_format b ≡ true → is_format (c ∷ b) ≡ true
unfolding is_format
is_format-plain c [] n h = rw n refl
is_format-plain c (d ∷ b) n h = rw n h

pub is_format-append :
    (a b : Bytes) → is_format a ≡ true → is_format b ≡ true → is_format (a ++ b) ≡ true
unfolding is_format
is_format-append [] b ha hb = hb
is_format-append (c ∷ []) b ha hb = is_format-plain c b (not-true (c == percent) ha) hb
is_format-append (c ∷ d ∷ a) b ha hb = elim (Bool-cases (c == percent)) [
  | inl y ↦
      let parts : (if c == percent
            then is_directive d directives && is_format a
            else is_format (d ∷ a))
          ≡ true =
        ha in
      let (letter, more) = and_true (is_directive d directives) (is_format a) (rw y at parts) in
      rw (y, letter) (is_format-append a b more hb)
  | inr n ↦
      let parts : (if c == percent
            then is_directive d directives && is_format a
            else is_format (d ∷ a))
          ≡ true =
        ha in
      rw n (is_format-append (d ∷ a) b (rw n at parts) hb)
]

is_format-emit : (c : ℕ) → is_format (emit c) ≡ true
unfolding emit
is_format-emit c = elim (Bool-cases (c == percent)) [
  | inl y ↦ rw y (unfold is_format is_directive in refl)
  | inr n ↦ rw n (unfold is_format in rw n refl)
]

pub is_format-read_literal : (b : Bool) (s : Bytes) → is_format (read_literal b s).0 ≡ true
unfolding read_literal
is_format-read_literal true [] = unfold is_format in refl
is_format-read_literal false [] = unfold is_format in refl
is_format-read_literal true (c ∷ s) =
    is_format-append (emit c) _ (is_format-emit c) (is_format-read_literal false s)
is_format-read_literal false (c ∷ s) = elim (Bool-cases (c == backslash)) [
  | inl y ↦ rw y (is_format-read_literal true s)
  | inr n ↦ rw n (elim (Bool-cases (c == double_quote)) [
    | inl q ↦ rw q (unfold is_format in refl)
    | inr p ↦ rw p (is_format-append (emit c) _ (is_format-emit c) (is_format-read_literal false s))
  ])
]

tok_ok : Option Bytes → Bool
unfolding is_format
tok_ok none = true
tok_ok (some ch) = is_format ch

all_ok : List ToCharTok → Bool
unfolding tok_ok
all_ok [] = true
all_ok (t ∷ toks) = tok_ok t.ch && all_ok toks

to_char_toks-ok : all_ok to_char_toks ≡ true
unfolding all_ok tok_ok to_char_toks is_format is_directive
to_char_toks-ok = refl

match_tok-ok :
    (toks : List ToCharTok) (s : Bytes) (ch : Option Bytes) (rest : Bytes)
    → all_ok toks ≡ true
    → match_tok toks s ≡ some (ch, rest)
    → tok_ok ch ≡ true
unfolding match_tok all_ok
match_tok-ok [] s ch rest fine h = cc
match_tok-ok (t ∷ toks) s ch rest fine h =
    elim (first_of-cases t.ch (strip t.pg s) (match_tok toks s) h) [
      | inl (found, same) ↦ rw (sym same) (and_true (tok_ok t.ch) (all_ok toks) fine).0
      | inr later ↦ match_tok-ok toks s ch rest (and_true (tok_ok t.ch) (all_ok toks) fine).1 later
    ]

-- The loop writes formats only.
abbrev Writes : (Bool → Bytes → Result Refusal Bytes) → Type 0
Writes loop = (b : Bool) (s out : Bytes) → loop b s ≡ ok out → is_format out ≡ true

after-Writes :
    (out : Bytes) (r : Result Refusal Bytes) {all : Bytes}
    → is_format out ≡ true
    → ((more : Bytes) → r ≡ ok more → is_format more ≡ true)
    → after out r ≡ ok all
    → is_format all ≡ true
unfolding after
after-Writes out r {all} fine rest h =
    let (more, e, same) = >>=-eq-ok r _ h in
    subst (λ t. is_format t ≡ true) (ok-injective Refusal (out ++ more) all same)
      (is_format-append out more fine (rest more e))

keyword-Writes :
    (c : ℕ) (s : Bytes) (loop : Bool → Bytes → Result Refusal Bytes)
    (m : Option (Option Bytes × Bytes)) {out : Bytes}
    → Writes loop
    → ((ch : Option Bytes) (rest : Bytes) → m ≡ some (ch, rest) → tok_ok ch ≡ true)
    → keyword c s loop m ≡ ok out
    → is_format out ≡ true
unfolding keyword tok_ok
keyword-Writes c s loop none writes fine h =
    after-Writes (emit c) (loop false s) (is_format-emit c) (λ more e. writes false s more e) h
keyword-Writes c s loop (some (none, rest)) writes fine h = cc
keyword-Writes c s loop (some (some ch, rest)) writes fine h =
    after-Writes ch (loop true rest) (fine (some ch) rest refl) (λ more e. writes true rest more e)
      h

unquoted-Writes :
    (c : ℕ) (s : Bytes) (loop : Bool → Bytes → Result Refusal Bytes) (o : Option Bytes)
    {out : Bytes}
    → Writes loop
    → unquoted c s loop o ≡ ok out
    → is_format out ≡ true
unfolding unquoted
unquoted-Writes c s loop (some rest) writes h =
    after-Writes (double_quote ∷ []) (loop false rest) (unfold is_format in refl)
      (λ more e. writes false rest more e) h
unquoted-Writes c s loop none writes h =
    keyword-Writes c s loop (match_tok to_char_toks (c ∷ s)) writes
      (λ ch rest e. match_tok-ok to_char_toks (c ∷ s) ch rest to_char_toks-ok e) h

refused_not_ok : {out : Bytes} → ◌≡◌ {A = Result Refusal Bytes} (err refused) (ok out) → ⊥
refused_not_ok h = cc

round-Writes :
    (b : Bool) (c : ℕ) (s : Bytes) (loop : Bool → Bytes → Result Refusal Bytes) {out : Bytes}
    → Writes loop
    → round b c s loop ≡ ok out
    → is_format out ≡ true
unfolding round
round-Writes b c s loop {out} writes h =
    let whole : (if b && is_th (c ∷ s)
          then err refused
          else if c == double_quote
          then after (read_literal false s).0 (loop false (read_literal false s).1)
          else unquoted c s loop (escaped_quote (c ∷ s)))
        ≡ ok out =
      h in
    elim (Bool-cases (b && is_th (c ∷ s))) [
      | inl y ↦ absurd (refused_not_ok (rw y at whole))
      | inr n ↦ elim (Bool-cases (c == double_quote)) [
        | inl q ↦
            after-Writes (read_literal false s).0 (loop false (read_literal false s).1)
              (is_format-read_literal false s)
              (λ more e. writes false (read_literal false s).1 more e) (rw (n, q) at whole)
        | inr p ↦ unquoted-Writes c s loop (escaped_quote (c ∷ s)) writes (rw (n, p) at whole)
      ]
    ]

translate_loop-Writes : (n : ℕ) → Writes (translate_loop n)
unfolding translate_loop
translate_loop-Writes zero b s out h = cc
translate_loop-Writes (suc n) b [] out h =
    subst (λ t. is_format t ≡ true) (ok-injective Refusal [] out h) (unfold is_format in refl)
translate_loop-Writes (suc n) b (c ∷ s) out h =
    round-Writes b c s (translate_loop n) (translate_loop-Writes n) h

-- In whatever the translation of a format returns, each `%` starts a directive of the table or a
-- doubled `%`.
pub translate_to_char_format-is_format :
    (s : Bytes) {out : Bytes} → translate_to_char_format s ≡ ok out → is_format out ≡ true
unfolding translate_to_char_format
translate_to_char_format-is_format s {out} h = translate_loop-Writes (suc (length s)) false s out h

-- ===== src/Deparse/ToChar/Total.antt =====
-- The loop of `chfdw_translate_to_char_format` in src/deparse.c ends.
use pg_clickhouse.Prelude.{
  ℕ, zero, suc, ◌+◌, ◌≤◌, ◌<◌, ◌≡◌, ◌≢◌, refl, ap, ◌⊎◌, Bytes, Bool, true, false, ◌&&◌, List, [],
  ◌∷◌, Option, none, some, ◌==◌, if◌then◌else◌, length, Result, ok, err, arith, inl, inr,
  Bool-cases, and_true,
}
use pg_clickhouse.Options.Scan.{backslash}
use pg_clickhouse.Deparse.ToChar.Tokens.{ToCharTok, to_char_toks}
use pg_clickhouse.Deparse.ToChar.{
  Refusal, refused, out_of_fuel, double_quote, strip, first_of, match_tok, read_literal, is_th,
  escaped_quote, after, keyword, unquoted, round, translate_loop, translate_to_char_format,
}

length-read_literal : (b : Bool) (s : Bytes) → length (read_literal b s).1 ≤ length s
unfolding read_literal
length-read_literal true [] = omega arith
length-read_literal false [] = omega arith
length-read_literal true (c ∷ s) = let rest = length-read_literal false s in omega arith
length-read_literal false (c ∷ s) = ground (arith, length-read_literal (c == backslash) s)

no_match : {rest : Bytes} → none ≢ some rest
no_match = λ e. cc

length-strip : (t s rest : Bytes) → strip t s ≡ some rest → length rest + length t ≡ length s
unfolding strip
length-strip [] s rest h = let same : s ≡ rest = cc in ground arith
length-strip (t ∷ pg) [] rest h = cc
length-strip (t ∷ pg) (c ∷ s) rest h = elim (Bool-cases (c == t)) [
  | inl y ↦
      let found : (if c == t then strip pg s else none) ≡ some rest = h in
      let inner = length-strip pg s rest (rw y at found) in omega arith
  | inr n ↦
      let found : (if c == t then strip pg s else none) ≡ some rest = h in
      absurd (no_match (rw n at found))
]

pub pair_of_some {ℓ} : {A : Type ℓ} {a b : A} → some a ≡ some b → a ≡ b
pair_of_some h = cc

-- A keyword is not empty.
is_nonempty : Bytes → Bool
is_nonempty [] = false
is_nonempty (c ∷ s) = true

nonempty_length : (s : Bytes) → is_nonempty s ≡ true → 0 < length s
unfolding is_nonempty
nonempty_length [] h = cc
nonempty_length (c ∷ s) h = omega arith

all_nonempty : List ToCharTok → Bool
all_nonempty [] = true
all_nonempty (t ∷ toks) = is_nonempty t.pg && all_nonempty toks

to_char_toks-nonempty : all_nonempty to_char_toks ≡ true
unfolding to_char_toks all_nonempty is_nonempty
to_char_toks-nonempty = refl

-- The keyword that matches is the first of the table or one of the others.
pub first_of-cases :
    (mine : Option Bytes) (o : Option Bytes) (others : Option (Option Bytes × Bytes))
    {ch : Option Bytes} {rest : Bytes}
    → first_of mine o others ≡ some (ch, rest)
    → ((o ≡ some rest) × (mine ≡ ch)) ⊎ (others ≡ some (ch, rest))
unfolding first_of
first_of-cases mine none others h = inr h
first_of-cases mine (some r) others {ch} {rest} h =
    inl (ap (λ p. some p.1) (pair_of_some h), ap (λ p. p.0) (pair_of_some h))

length-match_tok :
    (toks : List ToCharTok) (s : Bytes) (ch : Option Bytes) (rest : Bytes)
    → all_nonempty toks ≡ true
    → match_tok toks s ≡ some (ch, rest)
    → length rest < length s
unfolding match_tok all_nonempty
length-match_tok [] s ch rest full h = cc
length-match_tok (t ∷ toks) s ch rest full h =
    elim (first_of-cases t.ch (strip t.pg s) (match_tok toks s) h) [
      | inl (found, _) ↦
          let exact = length-strip t.pg s rest found in
          let some_byte =
            nonempty_length t.pg ((and_true (is_nonempty t.pg) (all_nonempty toks) full).0) in
          omega arith
      | inr later ↦
          length-match_tok toks s ch rest ((and_true (is_nonempty t.pg) (all_nonempty toks) full).1)
            later
    ]

length-escaped_quote :
    (s : Bytes) {rest : Bytes} → escaped_quote s ≡ some rest → length rest < length s
unfolding escaped_quote
length-escaped_quote [] h = cc
length-escaped_quote (c ∷ []) h = cc
length-escaped_quote (c ∷ d ∷ s) {rest} h =
    elim (Bool-cases ((c == backslash) && (d == double_quote))) [
      | inl y ↦
          let found : (if (c == backslash) && (d == double_quote) then some s else none)
              ≡ some rest =
            h in
          let same = pair_of_some {a = s} {b = rest} (rw y at found) in ground arith
      | inr n ↦
          let found : (if (c == backslash) && (d == double_quote) then some s else none)
              ≡ some rest =
            h in
          absurd (no_match (rw n at found))
    ]

after-total :
    (out : Bytes) (r : Result Refusal Bytes) → r ≢ err out_of_fuel → after out r ≢ err out_of_fuel
unfolding after
after-total out (ok a) h = λ e. cc
after-total out (err refused) h = λ e. cc
after-total out (err out_of_fuel) h = h

-- What a round needs of the loop: it is total on what is shorter.
abbrev IsTotal : (Bool → Bytes → Result Refusal Bytes) → ℕ → Type 0
IsTotal loop n = (b : Bool) (s : Bytes) → length s < n → loop b s ≢ err out_of_fuel

keyword-total :
    (c : ℕ) (s : Bytes) (loop : Bool → Bytes → Result Refusal Bytes)
    (m : Option (Option Bytes × Bytes))
    → IsTotal loop (suc (length s))
    → ((ch : Option Bytes) (rest : Bytes) → m ≡ some (ch, rest) → length rest < suc (length s))
    → keyword c s loop m ≢ err out_of_fuel
unfolding keyword
keyword-total c s loop none total less = after-total _ _ (total false s (omega arith))
keyword-total c s loop (some (none, rest)) total less = λ e. cc
keyword-total c s loop (some (some ch, rest)) total less =
    after-total ch _ (total true rest (less (some ch) rest refl))

unquoted-total :
    (c : ℕ) (s : Bytes) (loop : Bool → Bytes → Result Refusal Bytes) (o : Option Bytes)
    → IsTotal loop (suc (length s))
    → ((rest : Bytes) → o ≡ some rest → length rest < suc (length s))
    → unquoted c s loop o ≢ err out_of_fuel
unfolding unquoted
unquoted-total c s loop (some rest) total less =
    after-total (double_quote ∷ []) _ (total false rest (less rest refl))
unquoted-total c s loop none total less =
    keyword-total c s loop (match_tok to_char_toks (c ∷ s)) total
      (λ ch rest e. length-match_tok to_char_toks (c ∷ s) ch rest to_char_toks-nonempty e)

round-total :
    (b : Bool) (c : ℕ) (s : Bytes) (loop : Bool → Bytes → Result Refusal Bytes)
    → IsTotal loop (suc (length s))
    → round b c s loop ≢ err out_of_fuel
unfolding round
round-total b c s loop total = elim (Bool-cases (b && is_th (c ∷ s))) [
  | inl y ↦ rw y (λ e. cc)
  | inr n ↦ rw n (elim (Bool-cases (c == double_quote)) [
    | inl q ↦
        rw q
          (after-total _ _ (total false _ (let less = length-read_literal false s in omega arith)))
    | inr p ↦ rw p (
        unquoted-total c s loop (escaped_quote (c ∷ s)) total
          (λ rest e. length-escaped_quote (c ∷ s) e))
  ])
]

translate_loop-total :
    (n : ℕ) (b : Bool) (s : Bytes) → length s < n → translate_loop n b s ≢ err out_of_fuel
unfolding translate_loop
translate_loop-total zero b s h = absurd (omega arith)
translate_loop-total (suc n) b [] h = λ e. cc
translate_loop-total (suc n) b (c ∷ s) h =
    round-total b c s (translate_loop n) (λ j t less. translate_loop-total n j t (omega arith))

-- The translation of a format ends on every format: with a text or a refusal. Each round of its loop
-- consumes a byte.
pub translate_to_char_format-total : (s : Bytes) → translate_to_char_format s ≢ err out_of_fuel
unfolding translate_to_char_format
translate_to_char_format-total s = translate_loop-total (suc (length s)) false s (omega arith)

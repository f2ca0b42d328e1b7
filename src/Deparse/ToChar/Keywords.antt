-- ===== src/Deparse/ToChar/Keywords.antt =====
-- The search for a keyword by `chfdw_translate_to_char_format` of src/deparse.c finds the longest,
-- and what the table emits for it is ClickHouse's directive for the same field.
use pg_clickhouse.Prelude.{
  ℕ, ◌≤◌, ◌≡◌, ◌≢◌, refl, ap, sym, subst, Bytes, Bool, true, false, ◌&&◌, ◌||◌, List, [], ◌∷◌, ◌++◌,
  All, Option, none, some, ◌==◌, if◌then◌else◌, length, arith, inl, inr, Bool-cases, and_true,
  str_eq, str_eq_iff, leb, ◌∙◌,
}
use pg_clickhouse.Deparse.ToChar.Tokens.{ToCharTok, to_char_toks}
use pg_clickhouse.Deparse.ToChar.{strip, first_of, match_tok, percent}
use pg_clickhouse.Deparse.ToChar.Total.{pair_of_some}
use pg_clickhouse.Deparse.ToChar.Fields.{
  Field, spellings, letter, is_one_of, keywords, IsPrefix, NoneLonger, NoKeyword, year,
  year_of_century, quarter, month, month_name, day, day_of_year, weekday, hour, hour12, minute,
  second, half_of_day,
}

strip-append : (p s rest : Bytes) → strip p s ≡ some rest → p ++ rest ≡ s
unfolding strip
strip-append [] s rest h = sym (pair_of_some h)
strip-append (t ∷ p) [] rest h = cc
strip-append (t ∷ p) (c ∷ s) rest h = elim (Bool-cases (c == t)) [
  | inl y ↦
      let found : (if c == t then strip p s else none) ≡ some rest = h in
      let tail = strip-append p s rest (rw y at found) in
      let same : t ≡ c = ground (arith, y) in rw (same, tail) refl
  | inr n ↦
      let found : (if c == t then strip p s else none) ≡ some rest = h in
      absurd (no_match (rw n at found))
]
  where
    no_match : {rest : Bytes} → none ≢ some rest
    no_match = λ e. cc

strip-prefix : (p rest : Bytes) → strip p (p ++ rest) ≡ some rest
unfolding strip
strip-prefix [] rest = refl
strip-prefix (t ∷ p) rest =
    let equal : (t == t) ≡ true = ground arith in rw equal (strip-prefix p rest)

-- A text that `strip` refuses does not start so.
strip-none : (p s : Bytes) → strip p s ≡ none → ¬ IsPrefix p s
strip-none p s h =
    λ prefix. let (rest, e) = prefix in some_none (sym (strip-prefix p rest) ∙ ap (strip p) e ∙ h)
  where
    some_none : {rest : Bytes} → some rest ≢ none
    some_none = λ e. cc

all_at_most : ℕ → List ToCharTok → Bool
all_at_most n [] = true
all_at_most n (t ∷ toks) = leb (length t.pg) n && all_at_most n toks

-- No keyword is longer than one that stands before it.
longest_first : List ToCharTok → Bool
unfolding all_at_most
longest_first [] = true
longest_first (t ∷ toks) = all_at_most (length t.pg) toks && longest_first toks

all_at_most-All :
    (n : ℕ) (s : Bytes) (toks : List ToCharTok)
    → all_at_most n toks ≡ true
    → All (λ t. IsPrefix t.pg s → length t.pg ≤ n) toks
unfolding all_at_most
all_at_most-All n s [] h = tt
all_at_most-All n s (t ∷ toks) h =
    let (this, others) = and_true (leb (length t.pg) n) (all_at_most n toks) h in
    ((λ _. ground (arith, this)), all_at_most-All n s toks others)

-- What the table emits for a keyword is the directive of a field that the keyword asks for.
abbrev Emits : Bytes → Option Bytes → Type 0
Emits pg none = Unit
Emits pg (some ch) =
    (f : Field) × (is_one_of pg (spellings f) ≡ true) × (ch ≡ percent ∷ letter f ∷ [])

emits_field : Bytes → Bytes → List Field → Bool
emits_field pg ch [] = false
emits_field pg ch (f ∷ fs) =
    (is_one_of pg (spellings f) && str_eq ch (percent ∷ letter f ∷ [])) || emits_field pg ch fs

abbrev fields : List Field
fields =
    year ∷ year_of_century ∷ quarter ∷ month ∷ month_name ∷ day ∷ day_of_year ∷ weekday ∷ hour
    ∷ hour12 ∷ minute ∷ second ∷ half_of_day ∷ []

emits : Bytes → Option Bytes → Bool
unfolding emits_field
emits pg none = true
emits pg (some ch) = emits_field pg ch fields

all_emit : List ToCharTok → Bool
unfolding emits
all_emit [] = true
all_emit (t ∷ toks) = emits t.pg t.ch && all_emit toks

emits_field-Emits :
    (pg ch : Bytes) (fs : List Field) → emits_field pg ch fs ≡ true → Emits pg (some ch)
unfolding emits_field
emits_field-Emits pg ch [] h = absurd cc
emits_field-Emits pg ch (f ∷ fs) h =
    elim (Bool-cases (is_one_of pg (spellings f) && str_eq ch (percent ∷ letter f ∷ []))) [
      | inl y ↦
          let (spelled, same) = and_true (is_one_of pg (spellings f)) _ y in
          (f, spelled, (str_eq_iff ch (percent ∷ letter f ∷ [])).0 same)
      | inr n ↦ emits_field-Emits pg ch fs (rw n at h)
    ]

emits-Emits : (pg : Bytes) (ch : Option Bytes) → emits pg ch ≡ true → Emits pg ch
unfolding emits
emits-Emits pg none h = tt
emits-Emits pg (some ch) h = emits_field-Emits pg ch fields h

to_char_toks-longest_first : longest_first to_char_toks ≡ true
unfolding longest_first all_at_most to_char_toks
to_char_toks-longest_first = refl

to_char_toks-all_emit : all_emit to_char_toks ≡ true
unfolding all_emit emits emits_field to_char_toks is_one_of spellings letter str_eq
to_char_toks-all_emit = refl

-- A keyword that the search finds: what it stands for, and that none is longer.
record Found (toks : List ToCharTok) (s : Bytes) (ch : Option Bytes) (rest : Bytes) : Type 0 where
  pub pg : Bytes
  pub starts : pg ++ rest ≡ s
  pub emitted : Emits pg ch
  pub longest : All (λ t. IsPrefix t.pg s → length t.pg ≤ length pg) toks

Found-match_tok :
    (toks : List ToCharTok) (s : Bytes) (ch : Option Bytes) (rest : Bytes)
    → longest_first toks ≡ true
    → all_emit toks ≡ true
    → match_tok toks s ≡ some (ch, rest)
    → Found toks s ch rest
unfolding match_tok first_of longest_first all_emit
Found-match_tok [] s ch rest order emit h = cc
Found-match_tok (t ∷ toks) s ch rest order emit h =
    let (shorter, order1) = and_true (all_at_most (length t.pg) toks) (longest_first toks) order in
    let (this, emit1) = and_true (emits t.pg t.ch) (all_emit toks) emit in
    by_strip (strip t.pg s) refl shorter this
      (λ more. Found-match_tok toks s ch rest order1 emit1 more) h
  where
    by_strip :
        (o : Option Bytes)
        → strip t.pg s ≡ o
        → all_at_most (length t.pg) toks ≡ true
        → emits t.pg t.ch ≡ true
        → (match_tok toks s ≡ some (ch, rest) → Found toks s ch rest)
        → first_of t.ch o (match_tok toks s) ≡ some (ch, rest)
        → Found (t ∷ toks) s ch rest
    by_strip none e shorter this later h1 =
        let found = later h1 in
        record {
          pg = found.pg;
          starts = found.starts;
          emitted = found.emitted;
          longest = ((λ prefix. absurd (strip-none t.pg s e prefix)), found.longest);
        }
    by_strip (some r) e shorter this later h1 =
        let same_ch : t.ch ≡ ch = ap (λ p. p.0) (pair_of_some h1) in
        let same_rest : r ≡ rest = ap (λ p. p.1) (pair_of_some h1) in
        record {
          pg = t.pg;
          starts = subst (λ x. t.pg ++ x ≡ s) same_rest (strip-append t.pg s r e);
          emitted = subst (Emits t.pg) same_ch (emits-Emits t.pg t.ch this);
          longest = ((λ _. omega arith), all_at_most-All (length t.pg) s toks shorter);
        }

none-match_tok :
    (toks : List ToCharTok) (s : Bytes)
    → match_tok toks s ≡ none
    → All (λ t. ¬ IsPrefix t.pg s) toks
unfolding match_tok first_of
none-match_tok [] s h = tt
none-match_tok (t ∷ toks) s h = by_strip (strip t.pg s) refl (λ more. none-match_tok toks s more) h
  where
    by_strip :
        (o : Option Bytes)
        → strip t.pg s ≡ o
        → (match_tok toks s ≡ none → All (λ u. ¬ IsPrefix u.pg s) toks)
        → first_of t.ch o (match_tok toks s) ≡ none
        → All (λ u. ¬ IsPrefix u.pg s) (t ∷ toks)
    by_strip none e later h1 = (strip-none t.pg s e, later h1)
    by_strip (some r) e later h1 = cc

in_table : Bytes → List ToCharTok → Bool
in_table pg [] = false
in_table pg (t ∷ toks) = str_eq t.pg pg || in_table pg toks

all_in_table : List Bytes → Bool
unfolding in_table
all_in_table [] = true
all_in_table (pg ∷ pgs) = in_table pg to_char_toks && all_in_table pgs

-- The table has every keyword of PostgreSQL.
keywords-in_table : all_in_table keywords ≡ true
unfolding all_in_table in_table keywords to_char_toks str_eq
keywords-in_table = refl

in_table-All :
    (P : Bytes → Type 0) (pg : Bytes) (toks : List ToCharTok)
    → All (λ t. P t.pg) toks
    → in_table pg toks ≡ true
    → P pg
unfolding in_table
in_table-All P pg [] ps h = absurd cc
in_table-All P pg (t ∷ toks) (p, ps) h = elim (Bool-cases (str_eq t.pg pg)) [
  | inl y ↦ subst P ((str_eq_iff t.pg pg).0 y) p
  | inr n ↦ in_table-All P pg toks ps (rw n at h)
]

all_in_table-All :
    (P : Bytes → Type 0) (pgs : List Bytes)
    → All (λ t. P t.pg) to_char_toks
    → all_in_table pgs ≡ true
    → All P pgs
unfolding all_in_table
all_in_table-All P [] ps h = tt
all_in_table-All P (pg ∷ pgs) ps h =
    let (this, others) = and_true (in_table pg to_char_toks) (all_in_table pgs) h in
    (in_table-All P pg to_char_toks ps this, all_in_table-All P pgs ps others)

-- A keyword that is found and emits a text asks for the field of that directive, and none of
-- PostgreSQL's keywords there is longer.
pub keyword-field :
    (s ch rest : Bytes)
    → match_tok to_char_toks s ≡ some (some ch, rest)
    → (f : Field) × (pg : Bytes) × (is_one_of pg (spellings f) ≡ true)
      × (pg ++ rest ≡ s)
      × (ch ≡ percent ∷ letter f ∷ [])
      × NoneLonger (length pg) s
keyword-field s ch rest h =
    let found =
      Found-match_tok to_char_toks s (some ch) rest to_char_toks-longest_first to_char_toks-all_emit
        h in
    let (f, spelled, same) = found.emitted in
    (
      f,
      found.pg,
      spelled,
      found.starts,
      same,
      all_in_table-All (λ pg. IsPrefix pg s → length pg ≤ length found.pg) keywords found.longest
          keywords-in_table,
    )

pub no_keyword : (s : Bytes) → match_tok to_char_toks s ≡ none → NoKeyword s
no_keyword s h =
    all_in_table-All (λ pg. ¬ IsPrefix pg s) keywords (none-match_tok to_char_toks s h)
      keywords-in_table

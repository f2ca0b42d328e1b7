-- ===== src/Options/Parse/Names.antt =====
-- What `chfdw_parse_options` of src/option.c returns: the names and values of its pairs.
use pg_clickhouse.Prelude.{
  ℕ, zero, suc, Bytes, false, ◌≡◌, ◌≢◌, refl, ◌∙◌, ap, List, [], ◌∷◌, ◌++◌, map, length, arith,
  is_space, NonBlank, All, All-append, inl, inr, Bool-cases, Option, none, some, Result-cases, ok,
  err,
}
use pg_clickhouse.Nodes.{DefElem, make}
use pg_clickhouse.Options.Scan.{read_name, read_value}
use pg_clickhouse.Options.Parse.{parse_loop, parse_from, parse_options}
use pg_clickhouse.Options.Parse.Layout.{quoted, Item, IsItem, render, pair_of}
use pg_clickhouse.Options.Parse.RoundTrip.{parse_options-render}

-- A pair as the parser makes it: a name with no blank in it, and a value.
pub record IsPair (d : DefElem) : Type 0 where
  pub named : d.defname ≢ []
  pub solid : All NonBlank d.defname
  pub valued : d.arg ≢ none

read_name-NonBlank : (s : Bytes) → All NonBlank (read_name s).0
unfolding read_name
read_name-NonBlank [] = tt
read_name-NonBlank (c ∷ s) = elim (Bool-cases (is_space c)) [
  | inl h ↦ rw h tt
  | inr h ↦ rw h (h, read_name-NonBlank s)
]

pub read_name-starts :
    (c : ℕ) (s : Bytes) → is_space c ≡ false → (read_name (c ∷ s)).0 ≡ c ∷ (read_name s).0
unfolding read_name
read_name-starts c s h = rw h

make-IsPair : (c : ℕ) (s v : Bytes) → is_space c ≡ false → IsPair (make (read_name (c ∷ s)).0 v)
make-IsPair c s v h = record {
  named = rw (read_name-starts c s h) (ground arith);
  solid = read_name-NonBlank (c ∷ s);
  valued = ground arith;
}

parse_loop-IsPair :
    (f : ℕ) (s : Bytes) (options ds : List DefElem)
    → All IsPair options
    → parse_loop f s options ≡ ok ds
    → All IsPair ds
unfolding parse_loop
parse_loop-IsPair zero s options ds h e = cc
parse_loop-IsPair (suc f) [] options ds h e = let same : options ≡ ds = cc in rw (← same) h
parse_loop-IsPair (suc f) (c ∷ s) options ds h e = elim (Bool-cases (is_space c)) [
  | inl blank ↦ parse_loop-IsPair f s options ds h (rw (blank, parse_loop) at e)
  | inr start ↦ elim (Result-cases (read_value pname r)) [
    | inl ((v, rest), value) ↦
        parse_loop-IsPair f rest (options ++ make pname v ∷ []) ds
          (All-append IsPair options _ h (make-IsPair c s v start, tt))
          (rw (start, value, parse_loop) at e)
    | inr (x, bad) ↦ let absurd_ok : err x ≡ ok ds = rw (start, bad, parse_loop) at e in cc
  ]
]
  where
    pname : Bytes
    pname = (read_name (c ∷ s)).0

    r : Bytes
    r = (read_name (c ∷ s)).1

-- Whatever the input, every pair that the parser returns has a value, and a name that is not empty
-- and holds no blank.
pub parse_options-IsPair : (s : Bytes) {ds : List DefElem} → parse_options s ≡ ok ds → All IsPair ds
unfolding parse_options parse_from
parse_options-IsPair s {ds} h = parse_loop-IsPair (suc (length s)) s [] ds tt h

unfoldable pub text_of : Option Bytes → Bytes
text_of none = []
text_of (some v) = v

-- A pair in the quoted spelling, with single blanks.
unfoldable pub requote : DefElem → Item
unfolding text_of
requote d = record {
  lead = [];
  name = d.defname;
  gap = b' ' ∷ [];
  style = quoted;
  value = text_of d.arg;
  trail = [];
}

requote-IsItem : (d : DefElem) → IsPair d → IsItem (requote d)
unfolding requote is_space
requote-IsItem d h = record {
  lead_blank = tt;
  named = h.named;
  name_solid = h.solid;
  gap_blank = (refl, tt);
  gapped = ground arith;
  fits = tt;
}

pub some-text_of : (o : Option Bytes) → o ≢ none → some (text_of o) ≡ o
unfolding text_of
some-text_of none h = absurd (h refl)
some-text_of (some v) h = refl

pair_of-requote : (d : DefElem) → IsPair d → pair_of (requote d) ≡ d
unfolding requote
pair_of-requote d h = λ i. record { defname = d.defname; arg = some-text_of d.arg h.valued i }

map-requote : (ds : List DefElem) → All IsPair ds → map pair_of (map requote ds) ≡ ds
map-requote [] h = refl
map-requote (d ∷ ds) (hd, hs) = rw (pair_of-requote d hd, map-requote ds hs)

requote-All : (ds : List DefElem) → All IsPair ds → All IsItem (map requote ds)
requote-All [] h = tt
requote-All (d ∷ ds) (hd, hs) = (requote-IsItem d hd, requote-All ds hs)

-- What the parser accepts can be written back in the quoted spelling: the pairs of any accepted
-- input, so written, are read as the same pairs.
pub parse_options-requote :
    (s : Bytes) {ds : List DefElem}
    → parse_options s ≡ ok ds
    → parse_options (render (map requote ds) []) ≡ ok ds
parse_options-requote s {ds} h =
    let pairs = parse_options-IsPair s h in
    parse_options-render (map requote ds) [] (requote-All ds pairs) tt
    ∙ ap ok (map-requote ds pairs)

-- ===== src/Options/Parse/Total.antt =====
-- `chfdw_parse_options` of src/option.c ends: each round of its loop consumes a byte.
mod Progress
unfoldable pub use Progress.*
use pg_clickhouse.Prelude.{
  ℕ, zero, suc, ◌≤◌, ◌<◌, Bytes, Bool, true, false, List, [], ◌∷◌, ◌++◌, ◌≡◌, ◌≢◌, refl, ap, ◌∙◌,
  arith, length, is_space, inl, inr, Bool-cases, Result, ok, err, ◌>>=◌, >>=-eq-ok, Result-cases,
  err-injective, ◌==◌,
}
use pg_clickhouse.Nodes.{DefElem, make}
use pg_clickhouse.Options.Scan.{
  ParseError, out_of_fuel, quote, skip_spaces, read_name, end_plain, read_plain, read_quoted,
  end_quoted, nonempty, read_value,
}
use pg_clickhouse.Options.Parse.{parse_loop, parse_from, parse_options}

pub parse_blank :
    (c : ℕ) (s : Bytes) (options : List DefElem)
    → is_space c ≡ true
    → parse_from (c ∷ s) options ≡ parse_from s options
unfolding parse_from
parse_blank c s options h = rw h

module _ (c : ℕ) (s pname r : Bytes) (start : is_space c ≡ false)
    (name : read_name (c ∷ s) ≡ (pname, r)) where
  pub parse_pair :
      (pval rest : Bytes) (options : List DefElem)
      → read_value pname r ≡ ok (pval, rest)
      → parse_from (c ∷ s) options ≡ parse_from rest (options ++ make pname pval ∷ [])
  unfolding parse_from
  parse_pair pval rest options e =
      let short : length r ≤ length s =
        rw (ap (λ (p : Bytes × Bytes). p.1) name) at (read_name_consumes c s start) in
      let fits = read_value_rest pname r (pval, rest) e in
      rw (start, name, e)
        (parse_loop_fuel (suc (length s)) (suc (length rest)) rest (options ++ make pname pval ∷ [])
          (omega arith) (omega arith))

  pub parse_bad :
      (e : ParseError) (options : List DefElem)
      → read_value pname r ≡ err e
      → parse_from (c ∷ s) options ≡ err e
  unfolding parse_from
  parse_bad e options bad = rw (start, name, bad)

read_plain-ne-out_of_fuel :
    (pname : Bytes) (escaped : Bool) (out s : Bytes)
    → read_plain pname escaped out s ≢ err out_of_fuel
unfolding read_plain
read_plain-ne-out_of_fuel pname escaped out [] = ground arith
read_plain-ne-out_of_fuel pname true out (c ∷ s) =
    read_plain-ne-out_of_fuel pname false (out ++ c ∷ []) s
read_plain-ne-out_of_fuel pname false out (c ∷ s) = ground (
  arith,
  read_plain-ne-out_of_fuel pname true out s,
  read_plain-ne-out_of_fuel pname false (out ++ c ∷ []) s,
  end_plain-ne-out_of_fuel pname out (skip_spaces s),
)

read_quoted-ne-out_of_fuel :
    (escaped : Bool) (out s : Bytes) → read_quoted escaped out s ≢ err out_of_fuel
unfolding read_quoted
read_quoted-ne-out_of_fuel escaped out [] = ground arith
read_quoted-ne-out_of_fuel true out (c ∷ s) = read_quoted-ne-out_of_fuel false (out ++ c ∷ []) s
read_quoted-ne-out_of_fuel false out (c ∷ s) = ground (
  arith,
  read_quoted-ne-out_of_fuel true out s,
  read_quoted-ne-out_of_fuel false (out ++ c ∷ []) s,
)

end_quoted-ne-out_of_fuel : (pname out s : Bytes) → end_quoted pname out s ≢ err out_of_fuel
unfolding end_quoted
end_quoted-ne-out_of_fuel pname out [] = ground arith
end_quoted-ne-out_of_fuel pname out (c ∷ s) = ground arith

close_quoted-ne-out_of_fuel :
    (pname : Bytes) (q : Result ParseError (Bytes × Bytes))
    → q ≢ err out_of_fuel
    → (q >>= λ p. end_quoted pname p.0 (skip_spaces p.1)) ≢ err out_of_fuel
close_quoted-ne-out_of_fuel pname (err e) h = ground (arith, h)
close_quoted-ne-out_of_fuel pname (ok (v, r)) h = by_rest (skip_spaces r)
  where
    by_rest : (t : Bytes) → end_quoted pname v t ≢ err out_of_fuel
    by_rest t = end_quoted-ne-out_of_fuel pname v t

close_plain-ne-out_of_fuel :
    (pname : Bytes) (q : Result ParseError (Bytes × Bytes))
    → q ≢ err out_of_fuel
    → (q >>= nonempty pname) ≢ err out_of_fuel
unfolding nonempty
close_plain-ne-out_of_fuel pname (err e) h = ground (arith, h)
close_plain-ne-out_of_fuel pname (ok ([], r)) h = ground arith
close_plain-ne-out_of_fuel pname (ok (c ∷ v, r)) h = ground arith

read_value-ne-out_of_fuel : (pname s : Bytes) → read_value pname s ≢ err out_of_fuel
unfolding read_value
read_value-ne-out_of_fuel pname [] = ground arith
read_value-ne-out_of_fuel pname (c ∷ s) = elim (Bool-cases (c == quote)) [
  | inl e ↦ rw e (close_quoted-ne-out_of_fuel pname _ (read_quoted-ne-out_of_fuel false [] s))
  | inr e ↦
      rw e (close_plain-ne-out_of_fuel pname _ (read_plain-ne-out_of_fuel pname false [] (c ∷ s)))
]

parse_loop_total :
    (f : ℕ) (s : Bytes) (options : List DefElem)
    → length s < f
    → parse_loop f s options ≢ err out_of_fuel
unfolding parse_loop
parse_loop_total zero s options h = absurd (omega arith)
parse_loop_total (suc f) [] options h = ground arith
parse_loop_total (suc f) (c ∷ s) options h = elim (Bool-cases (is_space c)) [
  | inl blank ↦ rw blank (parse_loop_total f s options (omega arith))
  | inr start ↦ rw start (elim (Result-cases (read_value pname r)) [
    | inl ((v, rest), e) ↦
        let fits : length rest ≤ length s =
          omega (arith, read_value_rest pname r (v, rest) e, read_name_consumes c s start) in
        rw e (parse_loop_total f rest (options ++ make pname v ∷ []) (omega arith))
    | inr (e, bad) ↦ rw bad λ p.
        read_value-ne-out_of_fuel pname r
          (bad ∙ ap err (err-injective (List DefElem) e out_of_fuel p))
  ])
]
  where
    pname : Bytes
    pname = (read_name (c ∷ s)).0

    r : Bytes
    r = (read_name (c ∷ s)).1

-- The parser of settings strings ends on every input with a list of pairs or a syntax error: its
-- loop consumes a byte in each round, so the fuel of the model, one more than the length of the
-- input, is never used up.
pub parse_options-ne-out_of_fuel : (s : Bytes) → parse_options s ≢ err out_of_fuel
unfolding parse_options parse_from
parse_options-ne-out_of_fuel s = parse_loop_total (suc (length s)) s [] (omega arith)

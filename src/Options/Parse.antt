-- ===== src/Options/Parse.antt =====
-- `chfdw_parse_options` of src/option.c: the loop over the pairs.
pub mod Total
pub mod Layout
pub mod RoundTrip
pub mod Names
pub mod StrayComma
pub mod Bytewise
use pg_clickhouse.Prelude.{
  ℕ, zero, suc, Bytes, List, [], ◌∷◌, ◌++◌, is_space, if◌then◌else◌, length, Result, ok, err, ◌>>=◌,
}
use pg_clickhouse.Nodes.{DefElem, make}
use pg_clickhouse.Options.Scan.{ParseError, out_of_fuel, read_name, read_value}

-- One round of `while (*cp)` takes one unit of fuel.
unfoldable pub parse_loop : ℕ → Bytes → List DefElem → Result ParseError (List DefElem)
parse_loop zero s options = err out_of_fuel
parse_loop (suc fuel) [] options = ok options
parse_loop (suc fuel) (c ∷ s) options =
    let blank = parse_loop fuel s options in
    let (pname, r) = read_name (c ∷ s) in
    let pair = (do
      (pval, rest) ← read_value pname r
      parse_loop fuel rest (options ++ make pname pval ∷ [])) in
    if is_space c then blank else pair

-- The loop from an input and the pairs found so far, with fuel for every byte.
unfoldable pub parse_from : Bytes → List DefElem → Result ParseError (List DefElem)
unfolding parse_loop
parse_from s options = parse_loop (suc (length s)) s options

-- `chfdw_parse_options`.
unfoldable pub parse_options : Bytes → Result ParseError (List DefElem)
unfolding parse_from
parse_options s = parse_from s []

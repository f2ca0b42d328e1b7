-- ===== src/Options/Parse/StrayComma.antt =====
-- `chfdw_parse_options` of src/option.c at an unquoted value that is set apart from its comma.
use pg_clickhouse.Prelude.{
  ℕ, zero, suc, Bytes, false, ◌≡◌, ◌≢◌, refl, ◌∙◌, sym, List, [], ◌∷◌, ◌++◌, append-nil,
  append_assoc, length, is_space, Blank, All, inl, inr, Bool-cases, Result-cases, ok, err,
}
use pg_clickhouse.Nodes.{DefElem, make}
use pg_clickhouse.Options.Scan.{comma, skip_spaces, read_name, read_plain, read_value}
use pg_clickhouse.Options.Parse.{parse_loop, parse_from, parse_options}
use pg_clickhouse.Options.Parse.Layout.{
  Style, plain, quoted, FitsStyle, spell, Item, IsItem, render_item, pair_of,
}
use pg_clickhouse.Options.Parse.RoundTrip.{parse_item, skip_spaces-append, read_value-plain}
use pg_clickhouse.Options.Parse.Total.{parse_pair, parse_bad}
use pg_clickhouse.Options.Parse.Names.{read_name-starts}

-- The parser only adds pairs behind those that it has.
parse_loop_extends :
    (f : ℕ) (s : Bytes) (options ds : List DefElem)
    → parse_loop f s options ≡ ok ds
    → (more : List DefElem) × (ds ≡ options ++ more)
unfolding parse_loop
parse_loop_extends zero s options ds e = cc
parse_loop_extends (suc f) [] options ds e = ([], cc (append-nil options))
parse_loop_extends (suc f) (c ∷ s) options ds e = elim (Bool-cases (is_space c)) [
  | inl blank ↦ parse_loop_extends f s options ds (rw (blank, parse_loop) at e)
  | inr start ↦ elim (Result-cases (read_value pname r)) [
    | inl ((v, rest), value) ↦
        let (more, p) =
          parse_loop_extends f rest (options ++ make pname v ∷ []) ds
            (rw (start, value, parse_loop) at e) in
        (make pname v ∷ more, p ∙ append_assoc options _ more)
    | inr (x, bad) ↦ let absurd_ok : err x ≡ ok ds = rw (start, bad, parse_loop) at e in cc
  ]
]
  where
    pname : Bytes
    pname = (read_name (c ∷ s)).0

    r : Bytes
    r = (read_name (c ∷ s)).1

-- A round that starts at a comma takes it for the first byte of a name.
parse_from-comma :
    (s : Bytes) (options ds : List DefElem)
    → parse_from (comma ∷ s) options ≡ ok ds
    → (n v : Bytes) × (more : List DefElem) × (ds ≡ options ++ make (comma ∷ n) v ∷ more)
unfolding is_space
parse_from-comma s options ds h = elim (Result-cases (read_value (comma ∷ n) r)) [
  | inl ((v, rest), value) ↦
      let (more, p) =
        parse_loop_extends (suc (length rest)) rest (options ++ make (comma ∷ n) v ∷ []) ds (
          unfold parse_from in
          sym (parse_pair comma s (comma ∷ n) r refl name v rest options value) ∙ h) in
      (n, v, more, p ∙ append_assoc options _ more)
  | inr (x, bad) ↦
      let absurd_ok : err x ≡ ok ds =
        sym (parse_bad comma s (comma ∷ n) r refl name x options bad) ∙ h in
      cc
]
  where
    n : Bytes
    n = (read_name s).0

    r : Bytes
    r = (read_name (comma ∷ s)).1

    name : read_name (comma ∷ s) ≡ (comma ∷ n, r)
    name = λ i. (read_name-starts comma s refl i, r)

read_plain-Blank :
    (pname out b s : Bytes)
    → All Blank b
    → b ≢ []
    → read_plain pname false out (b ++ comma ∷ s) ≡ ok (out, comma ∷ s)
unfolding read_plain
read_plain-Blank pname out [] s h e = absurd (e refl)
read_plain-Blank pname out (c ∷ b) s (hc, hb) e =
    rw (hc, skip_spaces-append b (comma ∷ s) hb) (unfold skip_spaces is_space in refl)

read_value-stray :
    (pname : Bytes) (style : Style) (v trail b s : Bytes)
    → style ≡ plain
    → FitsStyle style v trail
    → All Blank b
    → b ≢ []
    → read_value pname (spell style v (trail ++ (b ++ comma ∷ s))) ≡ ok (v, comma ∷ s)
read_value-stray pname plain v trail b s e h hb blank =
    read_value-plain pname v trail (b ++ comma ∷ s) (comma ∷ s) h
      (read_plain-Blank pname v b s hb blank)
read_value-stray pname quoted v trail b s e h hb blank = cc

-- An unquoted value with blanks between it and its comma is never followed by the pair that stands
-- behind the comma: if the input is accepted at all, the comma has become the first byte of the
-- next setting's name, whatever follows it.
pub stray_comma :
    (i : Item) (b s : Bytes) {ds : List DefElem}
    → IsItem i
    → i.style ≡ plain
    → All Blank b
    → b ≢ []
    → parse_options (render_item i (b ++ comma ∷ s)) ≡ ok ds
    → (n v : Bytes) × (more : List DefElem) × (ds ≡ pair_of i ∷ make (comma ∷ n) v ∷ more)
unfolding parse_options
stray_comma i b s {ds} h e hb blank p = parse_from-comma s (pair_of i ∷ []) ds (
    sym (
      parse_item i (b ++ comma ∷ s) (comma ∷ s) [] h
        (read_value-stray i.name i.style i.value i.trail b s e h.fits hb blank))
    ∙ p)

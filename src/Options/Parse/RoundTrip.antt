-- ===== src/Options/Parse/RoundTrip.antt =====
-- `chfdw_parse_options` of src/option.c reads back every settings string of the documented syntax.
use mathlib.Core.List.{flat_map}
use pg_clickhouse.Prelude.{
  ℕ, Bytes, false, ◌≡◌, ◌≢◌, refl, ◌∙◌, sym, ap, List, [], ◌∷◌, ◌++◌, append-nil, append_assoc, map,
  arith, is_space, Blank, NonBlank, All, ok, ◌>>=◌,
}
use pg_clickhouse.Nodes.{DefElem, make}
use pg_clickhouse.Options.Scan.{
  comma, quote, skip_spaces, read_name, read_plain, read_quoted, end_quoted, nonempty, read_value,
}
use pg_clickhouse.Options.Parse.{parse_from, parse_options}
use pg_clickhouse.Options.Parse.Total.{parse_blank, parse_pair}
use pg_clickhouse.Options.Parse.Layout.{
  Style, plain, quoted, Item, FitsStyle, IsItem, hide, hide_quoted, spell, render_item, render,
  pair_of,
}

pub skip_spaces-append : (b s : Bytes) → All Blank b → skip_spaces (b ++ s) ≡ skip_spaces s
unfolding skip_spaces
skip_spaces-append [] s h = refl
skip_spaces-append (c ∷ b) s (hc, hb) = rw hc (skip_spaces-append b s hb)

pub skip_spaces-Blank : (b : Bytes) → All Blank b → skip_spaces b ≡ []
unfolding skip_spaces
skip_spaces-Blank [] h = refl
skip_spaces-Blank (c ∷ b) (hc, hb) = rw hc (skip_spaces-Blank b hb)

pub read_name-append :
    (n g s : Bytes)
    → All NonBlank n
    → All Blank g
    → g ≢ []
    → read_name (n ++ (g ++ s)) ≡ (n, skip_spaces s)
unfolding read_name
read_name-append [] [] s hn hg e = absurd (e refl)
read_name-append [] (c ∷ g) s hn (hc, hg) e = rw (hc, skip_spaces-append g s hg)
read_name-append (c ∷ n) g s (hc, hn) hg e = rw (hc, read_name-append n g s hn hg e)

-- What stands behind a pair: a comma and the next pair, or blanks up to the end.
pub data Ending : Bytes → Bytes → Type 0 where
  next : (rest : Bytes) → Ending (comma ∷ rest) rest
  last : (b : Bytes) → All Blank b → Ending b []

read_plain-hide :
    (pname out s : Bytes) (c : ℕ)
    → read_plain pname false out (hide c ++ s) ≡ read_plain pname false (out ++ c ∷ []) s
unfolding read_plain hide is_space
read_plain-hide pname out s c = ground arith

read_plain-spell :
    (pname v out s : Bytes)
    → read_plain pname false out (flat_map hide v ++ s) ≡ read_plain pname false (out ++ v) s
unfolding flat_map
read_plain-spell pname [] out s = rw append-nil
read_plain-spell pname (c ∷ v) out s =
    simp (append_assoc, read_plain-hide, read_plain-spell pname v)

end_plain-Ending :
    (pname out : Bytes) {s rest : Bytes}
    → Ending s rest
    → read_plain pname false out s ≡ ok (out, rest)
unfolding read_plain is_space
end_plain-Ending pname out (next rest) = refl
end_plain-Ending pname out (last [] h) = refl
end_plain-Ending pname out (last (c ∷ b) h) = rw (h.0, skip_spaces-Blank b h.1)

read_quoted-hide :
    (out s : Bytes) (c : ℕ)
    → read_quoted false out (hide_quoted c ++ s) ≡ read_quoted false (out ++ c ∷ []) s
unfolding read_quoted hide_quoted
read_quoted-hide out s c = ground arith

read_quoted-spell :
    (v out s : Bytes)
    → read_quoted false out (flat_map hide_quoted v ++ quote ∷ s) ≡ ok (out ++ v, s)
unfolding flat_map
read_quoted-spell [] out s = unfold read_quoted in rw append-nil
read_quoted-spell (c ∷ v) out s = simp (append_assoc, read_quoted-hide, read_quoted-spell v)

end_quoted-Ending :
    (pname v trail : Bytes) {s rest : Bytes}
    → All Blank trail
    → Ending s rest
    → end_quoted pname v (skip_spaces (trail ++ s)) ≡ ok (v, rest)
unfolding end_quoted
end_quoted-Ending pname v trail h (next rest) =
    rw (skip_spaces-append trail _ h) (unfold skip_spaces is_space in refl)
end_quoted-Ending pname v trail h (last b hb) =
    rw (skip_spaces-append trail b h, skip_spaces-Blank b hb)

-- A hidden first byte is no quote, so the value is read as an unquoted one.
read_value-hide :
    (pname : Bytes) (c : ℕ) (s : Bytes)
    → read_value pname (hide c ++ s)
      ≡ (read_plain pname false [] (hide c ++ s) >>= λ p. nonempty pname p)
unfolding read_value hide
read_value-hide pname c s = ground arith

-- An unquoted value is read back if the loop stops behind it.
pub read_value-plain :
    (pname v trail s rest : Bytes)
    → FitsStyle plain v trail
    → read_plain pname false v s ≡ ok (v, rest)
    → read_value pname (spell plain v (trail ++ s)) ≡ ok (v, rest)
unfolding spell flat_map nonempty
read_value-plain pname [] trail s rest (some_value, none_left) stop = absurd (some_value refl)
read_value-plain pname (c ∷ v) trail s rest (some_value, none_left) stop =
    rw (none_left, append_assoc, read_value-hide, read_plain-hide, read_plain-spell, stop)

-- A spelled value is read back, with what stands behind it left to read.
read_value-spell :
    (pname : Bytes) (style : Style) (v trail : Bytes) {s rest : Bytes}
    → FitsStyle style v trail
    → Ending s rest
    → read_value pname (spell style v (trail ++ s)) ≡ ok (v, rest)
unfolding spell read_value
read_value-spell pname plain v trail {s} {rest} h e =
    read_value-plain pname v trail s rest h (end_plain-Ending pname v e)
read_value-spell pname quoted v trail h e =
    rw read_quoted-spell (end_quoted-Ending pname v trail h e)

-- A spelled value does not start with a blank.
skip_spaces-spell :
    (style : Style) (v trail s : Bytes)
    → FitsStyle style v trail
    → skip_spaces (spell style v s) ≡ spell style v s
unfolding skip_spaces spell is_space hide
skip_spaces-spell plain [] trail s (some_value, _) = absurd (some_value refl)
skip_spaces-spell plain (c ∷ v) trail s h = unfold flat_map in ground arith
skip_spaces-spell quoted v trail s h = refl

parse_lead :
    (b s : Bytes) (options : List DefElem)
    → All Blank b
    → parse_from (b ++ s) options ≡ parse_from s options
parse_lead [] s options h = refl
parse_lead (c ∷ b) s options (hc, hb) =
    parse_blank c (b ++ s) options hc ∙ parse_lead b s options hb

parse_named :
    (name r pval rest : Bytes) (s : Bytes) (options : List DefElem)
    → name ≢ []
    → All NonBlank name
    → read_name (name ++ s) ≡ (name, r)
    → read_value name r ≡ ok (pval, rest)
    → parse_from (name ++ s) options ≡ parse_from rest (options ++ make name pval ∷ [])
parse_named [] r pval rest s options e h n v = absurd (e refl)
parse_named (c ∷ name) r pval rest s options e (hc, h) n v =
    parse_pair c (name ++ s) (c ∷ name) r hc n pval rest options v

-- The round that reads a pair, whatever ends its value.
pub parse_item :
    (i : Item) (s rest : Bytes) (options : List DefElem)
    → IsItem i
    → read_value i.name (spell i.style i.value (i.trail ++ s)) ≡ ok (i.value, rest)
    → parse_from (render_item i s) options ≡ parse_from rest (options ++ pair_of i ∷ [])
unfolding render_item
parse_item i s rest options h value =
    parse_lead i.lead _ options h.lead_blank
    ∙ parse_named i.name _ i.value rest _ options h.named h.name_solid
        (read_name-append i.name i.gap _ h.name_solid h.gap_blank h.gapped)
        (rw (skip_spaces-spell i.style i.value i.trail _ h.fits) value)

parse_ended :
    (i : Item) {s rest : Bytes} (options : List DefElem)
    → IsItem i
    → Ending s rest
    → parse_from (render_item i s) options ≡ parse_from rest (options ++ pair_of i ∷ [])
parse_ended i {s} {rest} options h e =
    parse_item i s rest options h (read_value-spell i.name i.style i.value i.trail h.fits e)

parse-render :
    (is : List Item) (b : Bytes) (options : List DefElem)
    → All IsItem is
    → All Blank b
    → parse_from (render is b) options ≡ ok (options ++ map pair_of is)
unfolding render
parse-render [] b options h hb = rw (append-nil) (
    ap (λ s. parse_from s options) (sym (append-nil b))
    ∙ parse_lead b [] options hb
    ∙ (unfold parse_from in refl))
parse-render (i ∷ []) b options (hi, _) hb =
    parse_ended i options hi (last b hb) ∙ (unfold parse_from in refl)
parse-render (i ∷ j ∷ is) b options (hi, h) hb =
    parse_ended i options hi (next _)
    ∙ parse-render (j ∷ is) b _ h hb
    ∙ ap ok (append_assoc options (pair_of i ∷ []) _)

-- Every settings string of the documented syntax, that is pairs with commas between them, blanks
-- around names, and values in either spelling, is read as exactly the pairs that it was written
-- from, in their order.
pub parse_options-render :
    (is : List Item) (b : Bytes)
    → All IsItem is
    → All Blank b
    → parse_options (render is b) ≡ ok (map pair_of is)
unfolding parse_options
parse_options-render is b h hb = parse-render is b [] h hb

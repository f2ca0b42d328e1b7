-- ===== src/Options/Parse/Layout.antt =====
-- The documented syntax of settings strings (doc/pg_clickhouse.md), as a printer: pairs set apart
-- by commas, the name and the value by blanks, and values spelled in one of two ways. It describes
-- the inputs of `chfdw_parse_options` of src/option.c independently of its code.
use mathlib.Core.List.{flat_map}
use pg_clickhouse.Prelude.{
  ℕ, Bytes, ◌≡◌, ◌≢◌, ◌||◌, List, [], ◌∷◌, ◌++◌, ◌==◌, is_space, Blank, NonBlank, All,
  if◌then◌else◌,
}
use pg_clickhouse.Nodes.{DefElem, make}
use pg_clickhouse.Options.Scan.{comma, backslash, quote}

pub data Style : Type 0 where
  plain quoted : Style

-- One pair with the blanks around its parts.
pub record Item : Type 0 where
  pub lead : Bytes
  pub name : Bytes
  pub gap : Bytes
  pub style : Style
  pub value : Bytes
  pub trail : Bytes

-- A name is not empty and holds no blank. An unquoted value is not empty, and nothing stands
-- between it and the comma.
abbrev pub FitsStyle : Style → Bytes → Bytes → Type 0
FitsStyle plain value trail = (value ≢ []) × (trail ≡ [])
FitsStyle quoted value trail = All Blank trail

pub record IsItem (i : Item) : Type 0 where
  pub lead_blank : All Blank i.lead
  pub named : i.name ≢ []
  pub name_solid : All NonBlank i.name
  pub gap_blank : All Blank i.gap
  pub gapped : i.gap ≢ []
  pub fits : FitsStyle i.style i.value i.trail

-- A backslash before each blank, comma, backslash and quote of an unquoted value.
unfoldable pub hide : ℕ → Bytes
hide c =
    if is_space c || c == comma || c == backslash || c == quote then backslash ∷ c ∷ [] else c ∷ []

-- A backslash before each backslash and quote of a quoted value.
unfoldable pub hide_quoted : ℕ → Bytes
hide_quoted c = if c == backslash || c == quote then backslash ∷ c ∷ [] else c ∷ []

-- A value, and what stands behind it.
unfoldable pub spell : Style → Bytes → Bytes → Bytes
unfolding hide hide_quoted
spell plain value tail = flat_map hide value ++ tail
spell quoted value tail = quote ∷ (flat_map hide_quoted value ++ quote ∷ tail)

unfoldable pub render_item : Item → Bytes → Bytes
unfolding spell
render_item i tail = i.lead ++ (i.name ++ (i.gap ++ spell i.style i.value (i.trail ++ tail)))

-- The pairs, with commas between them and blanks at the end.
unfoldable pub render : List Item → Bytes → Bytes
unfolding render_item
render [] last = last
render (i ∷ []) last = render_item i last
render (i ∷ j ∷ is) last = render_item i (comma ∷ render (j ∷ is) last)

abbrev pub pair_of : Item → DefElem
pair_of i = make i.name i.value

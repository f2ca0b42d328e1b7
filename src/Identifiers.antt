-- ===== src/Identifiers.antt =====
-- src/custom_types.c: the identifiers of the engine option, and the engine of a foreign table.
-- `pgch_quote_ch_ident`, of the pg-clickhouse-c library, is a parameter.
pub mod Quoted
use pg_clickhouse.Prelude.{
  ℕ, zero, suc, ◌+◌, ◌-◌, Bytes, codes, Bool, true, false, ◌&&◌, ◌||◌, List, [], ◌∷◌, Option, none,
  some, ◌==◌, ltb, leb, if◌then◌else◌, length, take, drop, str_eq, Result, ok, err, ◌>>=◌,
}
use pg_clickhouse.Nodes.{DefElem}
use pg_clickhouse.Postgres.{Postgres}

pub data TableError : Type 0 where
  invalid_identifier invalid_engine_parameter : TableError

abbrev pub double_quote : ℕ
double_quote = b'"'

abbrev pub backtick : ℕ
backtick = b'`'

abbrev pub escape_byte : ℕ
escape_byte = b'\\'

-- `NAMEDATALEN`, and `CH_ESCAPED_NAMEDATALEN`.
abbrev pub name_size : ℕ
name_size = 64

abbrev pub escaped_name_size : ℕ
escaped_name_size = 128

unfoldable pub ends_in : ℕ → Bytes → Bool
ends_in q [] = false
ends_in q (c ∷ []) = c == q
ends_in q (c ∷ d ∷ s) = ends_in q (d ∷ s)

unfoldable pub not_empty : Bytes → Bool
not_empty [] = false
not_empty (c ∷ s) = true

-- The loop over the bytes between the quotes, on what is left with the closing quote; whether none of
-- them ends the identifier early.
unfoldable pub is_closed : ℕ → Bytes → Bool
unfolding not_empty
is_closed q [] = true
is_closed q (c ∷ []) = true
is_closed q (c ∷ d ∷ s) =
    let skipped = is_closed q s in
    let passed = is_closed q (d ∷ s) in
    let escaped = c == escape_byte || (c == q && d == q) in
    if escaped && not_empty s then skipped else if escaped || c == q then false else passed

unfoldable pub is_quoted : Bytes → Bool
unfolding ends_in
is_quoted [] = false
is_quoted (q ∷ s) = (q == double_quote || q == backtick) && ends_in q s

unfoldable pub check_quoted : Bytes → Result TableError Bytes
unfolding is_closed
check_quoted [] = err invalid_identifier
check_quoted (q ∷ s) =
    if is_closed q s
    then (if length s == 1 || ltb (escaped_name_size - 1) (suc (length s))
        then err invalid_identifier
        else ok (q ∷ s))
    else err invalid_identifier

-- `strncasecmp(s, p, strlen(p)) == 0`.
unfoldable pub lower : ℕ → ℕ
lower c = if leb 65 c && leb c 90 then c + 32 else c

unfoldable pub starts_with_folded : Bytes → Bytes → Bool
unfolding lower
starts_with_folded [] s = true
starts_with_folded (p ∷ ps) [] = false
starts_with_folded (p ∷ ps) (c ∷ s) = lower p == lower c && starts_with_folded ps s

unfoldable pub count_on : Option ℕ → Option ℕ
count_on none = none
count_on (some i) = some (suc i)

-- `index` and `rindex`, as positions.
unfoldable pub index : ℕ → Bytes → Option ℕ
unfolding count_on
index c [] = none
index c (b ∷ s) = let later = count_on (index c s) in if b == c then some 0 else later

unfoldable pub or_here : Bool → Option ℕ → Option ℕ
or_here true none = some 0
or_here false none = none
or_here b (some i) = some i

unfoldable pub rindex : ℕ → Bytes → Option ℕ
unfolding count_on or_here
rindex c [] = none
rindex c (b ∷ s) = or_here (b == c) (count_on (rindex c s))

pub data TableEngine : Type 0 where
  plain collapsing_merge_tree aggregating_merge_tree : TableEngine

-- `ch_table_engine` and `ch_table_sign_field` of `CHFdwRelationInfo`.
pub record RemoteTable : Type 0 where
  pub table_engine : TableEngine
  pub sign_field : Bytes

-- The text between the parentheses.
unfoldable pub sign_between : Bytes → Option ℕ → Option ℕ → Result TableError Bytes
sign_between val none end = err invalid_engine_parameter
sign_between val (some start) none = err invalid_engine_parameter
sign_between val (some start) (some end) =
    if leb end (start + 1) || ltb (escaped_name_size - 1) (end - start - 1)
    then err invalid_engine_parameter
    else ok (take (end - start - 1) (drop (start + 1) val))

unfoldable pub store_sign : Bytes → Result TableError RemoteTable
store_sign quoted =
    if leb escaped_name_size (length quoted)
    then err invalid_engine_parameter
    else ok (record { table_engine = collapsing_merge_tree; sign_field = quoted })

module _ (quote_ch_ident : Bytes → Bytes) where
  -- `ch_quote_ident`.
  unfoldable pub ch_quote_ident : Bytes → Result TableError Bytes
  unfolding is_quoted check_quoted
  ch_quote_ident ident =
      if is_quoted ident
      then check_quoted ident
      else if length ident == 0 || ltb (name_size - 1) (length ident)
      then err invalid_identifier
      else ok (quote_ch_ident ident)

  unfoldable pub apply_engine : Bytes → RemoteTable → Result TableError RemoteTable
  unfolding starts_with_folded index rindex sign_between ch_quote_ident store_sign
  apply_engine val table =
      let collapsing = do
        sign ← sign_between val (index b'(' val) (rindex b')' val)
        quoted ← ch_quote_ident sign
        store_sign quoted
      in if starts_with_folded (codes "collapsingmergetree") val
        then collapsing
        else if starts_with_folded (codes "aggregatingmergetree") val
        then ok (record table { table_engine = aggregating_merge_tree })
        else ok table

  -- The loop over the options of `chfdw_apply_custom_table_options`.
  unfoldable pub apply_custom_table_options :
      Postgres → List DefElem → RemoteTable → Result TableError RemoteTable
  unfolding str_eq apply_engine
  apply_custom_table_options pg [] table = ok table
  apply_custom_table_options pg (d ∷ options) table = do
    next ←
        if str_eq d.defname (codes "engine")
        then apply_engine (pg.def_get_string d) table
        else ok table
    apply_custom_table_options pg options next

-- ===== src/Examples/Parsing.antt =====
-- The options and settings strings of src/option.c.
use pg_clickhouse.Prelude.{
  Bytes, codes, true, ◌≡◌, ◌≢◌, refl, ap, ◌∙◌, List, [], ◌∷◌, ◌++◌, map, none, some, arith, All,
  is_space, ok, err, if◌then◌else◌, ltb, leb, ◌&&◌,
}
use mathlib.Core.List.{flat_map}
use pg_clickhouse.Nodes.{DefElem, make}
use pg_clickhouse.Options.Scan.{
  missing_comma, missing_value, unterminated_quote, out_of_fuel, comma, skip_spaces, read_name,
  read_value,
}
use pg_clickhouse.Options.Parse.{parse_options}
use pg_clickhouse.Options.Parse.Layout.{plain, quoted, Item, IsItem, render, render_item, pair_of}
use pg_clickhouse.Options.Parse.Total.{parse_options-ne-out_of_fuel}
use pg_clickhouse.Options.Parse.RoundTrip.{parse_options-render}
use pg_clickhouse.Options.Parse.StrayComma.{stray_comma}
use pg_clickhouse.Options.Guc.{Check, refuse, accept, check_settings_guc}
use pg_clickhouse.Options.Validate.{default}
use pg_clickhouse.Options.Extract.{Details, auto, extract_options}
use pg_clickhouse.Options.Extract.Port.{parse_port, parse_port-digits, value, int_max}
use pg_clickhouse.Options.Extract.Laws.{IsUsable, extract_options-IsUsable}
use pg_clickhouse.Examples.Backend.{backend, ample, one_encoding}

-- The accepted and refused strings of test/sql/gucs.sql.
two_pairs :
    parse_options (codes "join_use_nulls 1, xyz true")
    ≡ ok (make (codes "join_use_nulls") (codes "1") ∷ make (codes "xyz") (codes "true") ∷ [])
unfolding parse_options is_space read_name read_value
two_pairs = refl

escapes :
    parse_options
      (codes " xxx DEFAULT, yyy foo\\,bar, zzz    'He said, \\'Hello\\'', aaa  hi\\ there ")
    ≡ ok (
        make (codes "xxx") (codes "DEFAULT")
        ∷ make (codes "yyy") (codes "foo,bar")
        ∷ make (codes "zzz") (codes "He said, 'Hello'")
        ∷ make (codes "aaa") (codes "hi there")
        ∷ [])
unfolding parse_options is_space read_name read_value
escapes = refl

no_value : parse_options (codes "join_use_nulls") ≡ err (missing_value (codes "join_use_nulls"))
unfolding parse_options is_space read_name read_value
no_value = refl

equals_sign :
    parse_options (codes "join_use_nulls = xyz") ≡ err (missing_comma (codes "join_use_nulls"))
unfolding parse_options is_space read_name read_value
equals_sign = refl

open_quote : parse_options (codes " additional_result_filter 'x != 2 ") ≡ err unterminated_quote
unfolding parse_options is_space read_name read_value
open_quote = refl

-- A blank before the comma: fine behind a quoted value, and not behind an unquoted one.
blank_comma_quoted :
    parse_options (codes "a '1' ,b 2")
    ≡ ok (make (codes "a") (codes "1") ∷ make (codes "b") (codes "2") ∷ [])
unfolding parse_options is_space read_name read_value
blank_comma_quoted = refl

blank_comma_plain :
    parse_options (codes "a 1 ,b 2")
    ≡ ok (make (codes "a") (codes "1") ∷ make (codes ",b") (codes "2") ∷ [])
unfolding parse_options is_space read_name read_value
blank_comma_plain = refl

abbrev items : List Item
items =
    record {
      lead = codes " ";
      name = codes "a";
      gap = codes " ";
      style = plain;
      value = codes "x,y";
      trail = [];
    }
    ∷ record {
      lead = codes " ";
      name = codes "b";
      gap = codes "  ";
      style = quoted;
      value = codes "it's";
      trail = codes " ";
    }
    ∷ []

items-IsItem : All IsItem items
unfolding is_space
items-IsItem = (
  record {
    lead_blank = (refl, tt);
    named = λ p. cc;
    name_solid = (refl, tt);
    gap_blank = (refl, tt);
    gapped = λ p. cc;
    fits = (λ p. cc, refl);
  },
  (
    record {
      lead_blank = (refl, tt);
      named = λ p. cc;
      name_solid = (refl, tt);
      gap_blank = (refl, (refl, tt));
      gapped = λ p. cc;
      fits = (refl, tt);
    },
    tt,
  ),
)

rendered : render items (codes " ") ≡ codes " a x\\,y, b  'it\\'s'  "
unfolding render flat_map is_space
rendered = refl

parse_options-render_example : parse_options (render items (codes " ")) ≡ ok (map pair_of items)
unfolding is_space
parse_options-render_example = parse_options-render items (codes " ") items-IsItem (refl, tt)

parse_options-ne-out_of_fuel_example : parse_options (codes "a 1, b") ≢ err out_of_fuel
parse_options-ne-out_of_fuel_example = parse_options-ne-out_of_fuel (codes "a 1, b")

abbrev pair_a : List DefElem
pair_a = make (codes "a") (codes "1") ∷ []

parsed_a : parse_options (codes "a 1") ≡ ok pair_a
unfolding parse_options is_space read_name read_value
parsed_a = refl

abbrev first_item : Item
first_item = record {
  lead = [];
  name = codes "a";
  gap = codes " ";
  style = plain;
  value = codes "1";
  trail = [];
}

first_item-IsItem : IsItem first_item
unfolding is_space
first_item-IsItem = record {
  lead_blank = tt;
  named = λ p. cc;
  name_solid = (refl, tt);
  gap_blank = (refl, tt);
  gapped = λ p. cc;
  fits = (λ p. cc, refl);
}

first_item_rendered : render_item first_item (codes " " ++ comma ∷ codes "b 2") ≡ codes "a 1 ,b 2"
unfolding render_item flat_map is_space
first_item_rendered = refl

stray_comma_example :
    (n v : Bytes) × (more : List DefElem) × (make (codes "a") (codes "1")
        ∷ make (codes ",b") (codes "2")
        ∷ []
      ≡ pair_of first_item ∷ make (comma ∷ n) v ∷ more)
unfolding is_space
stray_comma_example =
    stray_comma first_item (codes " ") (codes "b 2") first_item-IsItem refl (refl, tt) (λ p. cc)
      (ap parse_options first_item_rendered ∙ blank_comma_plain)

-- The settings of a session.
abbrev session_a : Check
session_a = accept (some (record { count = 1; content = b'a' ∷ 0 ∷ b'1' ∷ 0 ∷ [] }))

-- Only blanks: there is no pair, and the value is refused.
only_blanks : check_settings_guc true ample (some (codes "  ")) ≡ ok refuse
unfolding check_settings_guc parse_options is_space
only_blanks = refl

parse_port-digits_example : parse_port (codes "08123") ≡ (
    if ltb 0 (value 0 (codes "08123")) && leb (value 0 (codes "08123")) int_max
    then some (value 0 (codes "08123"))
    else none)
parse_port-digits_example = parse_port-digits b'0' (codes "8123") (omega arith)

ports :
    (parse_port (codes " +8443") ≡ some 8443)
    × (parse_port (codes "-1") ≡ none)
    × (parse_port (codes "80x") ≡ none)
    × (parse_port (codes "2147483648") ≡ none)
unfolding parse_port is_space skip_spaces
ports = (refl, refl, refl, refl)

abbrev pub details : Details (Unit {0})
details = record {
  driver = codes "binary";
  host = codes "127.0.0.1";
  port = 0;
  username = none;
  password = none;
  dbname = codes "default";
  compression = none;
  tls = auto;
  min_tls_version = default;
  encoding_check = tt;
}

abbrev two_hosts : List DefElem
two_hosts =
    make (codes "host") (codes "a")
    ∷ make (codes "port") (codes "1")
    ∷ make (codes "host") (codes "b")
    ∷ []

extract_options-IsUsable_example :
    IsUsable backend one_encoding (extract_options backend one_encoding two_hosts details)
extract_options-IsUsable_example =
    extract_options-IsUsable backend one_encoding two_hosts details
      (record { port_fits = omega arith; database_named = λ p. cc })

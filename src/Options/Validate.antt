-- ===== src/Options/Validate.antt =====
-- `clickhouse_fdw_validator` and `parse_min_tls_version` of src/option.c.
use pg_clickhouse.Prelude.{
  Bytes, codes, Bool, true, false, ◌||◌, List, [], ◌∷◌, Option, none, some, str_eq, if◌then◌else◌,
  Result, ok, err, ◌>>=◌,
}
use pg_clickhouse.Nodes.{DefElem}
use pg_clickhouse.Postgres.{Postgres}
use pg_clickhouse.Options.Scan.{ParseError}
use pg_clickhouse.Options.Parse.{parse_options}
use pg_clickhouse.Options.Table.{Catalog, FdwOption, fdw_options, same_catalog, is_valid_option}

-- `tls_version` of src/include/engine.h.
pub data TlsVersion : Type 0 where
  default v1_0 v1_1 v1_2 v1_3 : TlsVersion

pub data OptionError : Type 0 where
  -- the option, and the keywords of the hint
  invalid_option : Bytes → List Bytes → OptionError
  invalid_secure : Bytes → OptionError
  invalid_min_tls_version : Bytes → OptionError
  invalid_encoding_check : Bytes → OptionError
  invalid_settings : ParseError → OptionError

-- The spellings of "on" and of "off".
unfoldable pub is_on : Bytes → Bool
is_on val =
    str_eq val (codes "on")
    || str_eq val (codes "true")
    || str_eq val (codes "yes")
    || str_eq val (codes "1")

unfoldable pub is_off : Bytes → Bool
is_off val =
    str_eq val (codes "off")
    || str_eq val (codes "false")
    || str_eq val (codes "no")
    || str_eq val (codes "0")

unfoldable pub is_secure_value : Bytes → Bool
unfolding is_on is_off
is_secure_value val = is_on val || is_off val || str_eq val (codes "auto")

-- The keywords that the hint lists.
unfoldable pub hints : Catalog → List FdwOption → List Bytes
hints catalog [] = []
hints catalog (o ∷ os) =
    let rest = hints catalog os in
    if same_catalog catalog o.optcontext then o.keyword ∷ rest else rest

unfoldable pub or_invalid : Result ParseError (List DefElem) → Result OptionError (Unit {0})
or_invalid (ok ds) = ok tt
or_invalid (err e) = err (invalid_settings e)

-- `if (failed) ereport(ERROR, e)`.
unfoldable pub require : Bool → OptionError → Result OptionError (Unit {0})
require true e = ok tt
require false e = err e

-- A test that is made only for the option of this name.
unfoldable pub when : Bool → Result OptionError (Unit {0}) → Result OptionError (Unit {0})
when true m = m
when false m = ok tt

unfoldable pub is_some {ℓ} : {A : Type ℓ} → Option A → Bool
is_some none = false
is_some (some a) = true

-- `parse_encoding` is `pgch_parse_encoding_check` of the pg-clickhouse-c library.
module _ {E : Type 0} (pg : Postgres) (parse_encoding : Bytes → Option E) where
  unfoldable pub parse_min_tls_version : Bytes → Option TlsVersion
  parse_min_tls_version val =
      if pg.same_folded val (codes "TLSv1")
      then some v1_0
      else if pg.same_folded val (codes "TLSv1.1")
      then some v1_1
      else if pg.same_folded val (codes "TLSv1.2")
      then some v1_2
      else if pg.same_folded val (codes "TLSv1.3")
      then some v1_3
      else none

  unfoldable pub check_name : Catalog → DefElem → Result OptionError (Unit {0})
  unfolding require is_valid_option
  check_name catalog def =
      require (is_valid_option def.defname catalog)
        (invalid_option def.defname (hints catalog fdw_options))

  unfoldable pub check_secure : DefElem → Result OptionError (Unit {0})
  unfolding require when is_secure_value
  check_secure def =
      let val = pg.def_get_string def in
      when (str_eq def.defname (codes "secure"))
        (require (is_secure_value val) (invalid_secure val))

  unfoldable pub check_min_tls_version : DefElem → Result OptionError (Unit {0})
  unfolding require when is_some
  check_min_tls_version def =
      let val = pg.def_get_string def in
      when (str_eq def.defname (codes "min_tls_version"))
        (require (is_some (parse_min_tls_version val)) (invalid_min_tls_version val))

  unfoldable pub check_settings : DefElem → Result OptionError (Unit {0})
  unfolding when or_invalid
  check_settings def =
      when (str_eq def.defname (codes "settings"))
        (or_invalid (parse_options (pg.def_get_string def)))

  unfoldable pub check_encoding : DefElem → Result OptionError (Unit {0})
  unfolding require when is_some
  check_encoding def =
      let val = pg.def_get_string def in
      when (str_eq def.defname (codes "encoding_check"))
        (require (is_some (parse_encoding val)) (invalid_encoding_check val))

  -- The tests of one option, each of which may raise.
  unfoldable pub validate_option : Catalog → DefElem → Result OptionError (Unit {0})
  unfolding check_name check_secure check_min_tls_version check_settings check_encoding
  validate_option catalog def = do
    name ← check_name catalog def
    secure ← check_secure def
    tls ← check_min_tls_version def
    settings ← check_settings def
    check_encoding def

  unfoldable pub validator : Catalog → List DefElem → Result OptionError (Unit {0})
  unfolding validate_option
  validator catalog [] = ok tt
  validator catalog (def ∷ options) = do
    valid ← validate_option catalog def
    validator catalog options

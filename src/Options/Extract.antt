-- ===== src/Options/Extract.antt =====
-- `chfdw_extract_options` of src/option.c: the connection details that a list of options gives.
pub mod Port
pub mod Laws
use pg_clickhouse.Prelude.{
  ℕ, Bytes, codes, Bool, true, false, ◌&&◌, ◌||◌, List, [], ◌∷◌, Option, none, some, str_eq,
  if◌then◌else◌,
}
use pg_clickhouse.Nodes.{DefElem}
use pg_clickhouse.Postgres.{Postgres}
use pg_clickhouse.Options.Table.{is_ch_option}
use pg_clickhouse.Options.Validate.{TlsVersion, is_on, is_off, parse_min_tls_version}
use pg_clickhouse.Options.Extract.Port.{parse_port}

-- `tls_mode` of src/include/engine.h.
pub data TlsMode : Type 0 where
  auto on off : TlsMode

-- `ch_connection_details` of src/include/engine.h; `E` is the type of encoding checks.
pub record Details (E : Type 0) : Type 0 where
  pub driver : Bytes
  pub host : Bytes
  pub port : ℕ
  pub username : Option Bytes
  pub password : Option Bytes
  pub dbname : Bytes
  pub compression : Option Bytes
  pub tls : TlsMode
  pub min_tls_version : TlsVersion
  pub encoding_check : E

unfoldable pub or_default {ℓ} : {A : Type ℓ} → A → Option A → A
or_default a none = a
or_default a (some b) = b

unfoldable pub db_or_default : Bytes → Bytes
db_or_default [] = codes "default"
db_or_default (c ∷ s) = c ∷ s

unfoldable pub tls_of : TlsMode → Bytes → TlsMode
tls_of tls val = if is_on val then on else if is_off val then off else tls

module _ {E : Type 0} (pg : Postgres) (parse_encoding : Bytes → Option E) where
  -- The options that are read whether or not they are among the client's.
  unfoldable pub extract_driver : Bytes → Bytes → Details E → Details E
  unfolding or_default
  extract_driver name val d =
      if str_eq name (codes "driver")
      then record d { driver = val }
      else if str_eq name (codes "encoding_check")
      then record d { encoding_check = or_default d.encoding_check (parse_encoding val) }
      else d

  -- The client's options.
  unfoldable pub extract_client : Bytes → Bytes → Details E → Details E
  unfolding or_default db_or_default tls_of
  extract_client name val d =
      if str_eq name (codes "host")
      then record d { host = val }
      else if str_eq name (codes "port")
      then record d { port = or_default d.port (parse_port val) }
      else if str_eq name (codes "user")
      then record d { username = some val }
      else if str_eq name (codes "password")
      then record d { password = some val }
      else if str_eq name (codes "compression")
      then record d { compression = some val }
      else if str_eq name (codes "dbname")
      then record d { dbname = db_or_default val }
      else if str_eq name (codes "secure")
      then record d { tls = tls_of d.tls val }
      else if str_eq name (codes "min_tls_version")
      then record d {
        min_tls_version =
            or_default d.min_tls_version (parse_min_tls_version pg parse_encoding val);
      }
      else d

  unfoldable pub extract_option : DefElem → Details E → Details E
  unfolding extract_driver extract_client
  extract_option def d =
      let val = pg.def_get_string def in
      let e = extract_driver def.defname val d in
      if is_ch_option def.defname then extract_client def.defname val e else e

  unfoldable pub extract_options : List DefElem → Details E → Details E
  unfolding extract_option
  extract_options [] d = d
  extract_options (def ∷ defelems) d = extract_options defelems (extract_option def d)

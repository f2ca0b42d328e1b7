-- ===== src/Connections/Connect.antt =====
-- `clickhouse_connect` of src/connection.c: the details of a server and a user mapping, and the
-- transport that they name.
use pg_clickhouse.Prelude.{Bytes, codes, List, Option, none, str_eq, if◌then◌else◌, Result, err}
use pg_clickhouse.Nodes.{DefElem}
use pg_clickhouse.Postgres.{Postgres}
use pg_clickhouse.Options.Validate.{TlsVersion}
use pg_clickhouse.Options.Extract.{TlsMode, Details, extract_options}
use pg_clickhouse.Connections.{Conn, ConnectError}

-- The parameters after `parse_encoding` are `CHC_ENC_FAIL`, `chfdw_http_connect` and
-- `chfdw_binary_connect`.
module _ {E : Type 0} (pg : Postgres) (parse_encoding : Bytes → Option E) (enc_fail : E)
    (http_connect binary_connect : Details E → Result ConnectError Conn) where
  abbrev pub default_details : Details E
  default_details = record {
    driver = codes "binary";
    host = codes "127.0.0.1";
    port = 0;
    username = none;
    password = none;
    dbname = codes "default";
    compression = none;
    tls = TlsMode.auto;
    min_tls_version = TlsVersion.default;
    encoding_check = enc_fail;
  }

  unfoldable pub clickhouse_connect : List DefElem → List DefElem → Result ConnectError Conn
  unfolding extract_options
  clickhouse_connect server user =
      let details =
        extract_options pg parse_encoding user
          (extract_options pg parse_encoding server default_details) in
      if str_eq details.driver (codes "http")
      then http_connect details
      else if str_eq details.driver (codes "binary")
      then binary_connect details
      else err ConnectError.invalid_driver

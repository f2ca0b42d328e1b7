-- ===== src/Lib.antt =====
-- A verification library for pg_clickhouse, the PostgreSQL extension that runs queries on ClickHouse.
--
-- Modelled are the parts of the extension's own logic that decide what is sent to ClickHouse, and how
-- its answers and connections are handled:
--
--   - Options: src/option.c. Options/Scan and Options/Parse are `chfdw_parse_options`, the parser of
--     settings strings; Options/Table, Options/Validate the option table and
--     `clickhouse_fdw_validator`; Options/Extract `chfdw_extract_options`; Options/Guc the hooks of
--     the session settings.
--   - KvList: src/kv_list.c, the packed block of strings that the drivers walk.
--   - Settings: src/settings.c, which merges the sources of settings for a query.
--   - ServerVersion: src/include/server_version.h.
--   - Endpoint: src/endpoint.c, the port and the TLS mode.
--   - Connections: src/connection.c. Connections is the cache and the leases, Connections/Connect
--     `clickhouse_connect`, Connections/Step the release of a lease, the callbacks and the steps of a
--     backend; Ledger, Exclusive, Serves and Settled are about these steps.
--   - Deparse: of src/deparse.c the translation of `to_char` formats (Deparse/ToChar, against
--     Deparse/ToChar/Fields, how PostgreSQL and ClickHouse read a format) and the flags of
--     regular expressions (Deparse/RegexFlags, with `regex_flags_ok` of src/shipable.c).
--   - Deparse/Nulls: which conditions src/deparse.c sends and how it keeps NULL apart from FALSE.
--     Nulls/Tree are PostgreSQL's nodes, Nulls/Postgres what PostgreSQL answers; Nulls/Proved is
--     what is proved free of NULL (`expr_never_null` to `classify_notin_subplan`),
--     Nulls/Arithmetic PostgreSQL's functions for +, - and *, Nulls/Walker `foreign_expr_walker`
--     and its contexts, Nulls/Emit `deparseExpr` and the functions for the nodes, Nulls/Sql the
--     SQL that they send and what ClickHouse answers, Nulls/Print its characters,
--     Nulls/Conditions the conditions of a query. The other modules are about these.
--   - Literals: the quoting of src/pglink.c and the `bytea` literals of src/deparse.c, against
--     Literals/Lexer, a description of how ClickHouse reads a literal.
--   - Binary: src/binary. Binary is the response of a query (`pump_one`,
--     `ch_binary_response_fetch_next_block`, `ch_binary_drain`, `ch_binary_response_free`), Binary/Insert
--     the INSERT handles, Binary/QuerySettings and Binary/Params the settings and parameters of a query.
--     Binary/Source says what a list of packets means, Binary/Reuse where a connection stands.
--   - Http: src/http.c. Http is `write_callback`, `pump` and `ch_http_stream_next_chunk`, Http/Exception
--     `ch_http_stream_exception`, Http/Error `ch_http_copy_error`, Http/Request the parameters that
--     `setup_curl` puts in the URL. Http/Body says what body a script of libcurl's calls amounts to; Http/Tail and
--     Http/Buffer are about what is kept of it.
--   - Identifiers: `ch_quote_ident` and the engine option of src/custom_types.c.
--   - VectorMeta: src/vector_meta.c, the cache of the vector indexes of remote tables.
--
-- A client calls into them in this order: the validator vets the options when they are set; a scan
-- leases a connection, for which the details are extracted from the options; the text of its query is
-- made with Deparse and Literals; its settings are merged and packed, and the driver walks the packed
-- list. The connection cache takes from outside what the transports answer: a handle or an error for
-- each attempt to connect, and whether a handle is broken.
--
-- Text is a list of byte codes without the final NUL; a pointer into a block is the list of the bytes
-- from it to the end. A raised error is a value of `err`. `Postgres` holds what is taken from
-- PostgreSQL's `defGetString` and `pg_strcasecmp`, and the check of `encoding_check`, from the
-- pg-clickhouse-c library, is a parameter. `isspace` is that of the C locale. An allocator is a
-- predicate that tells whether it delivers so many bytes.
--
-- Fuel: `parse_loop` runs on one more than the length of the input, since each round of the loop
-- consumes a byte; the walk over packed settings runs on one more than the count of its list.
-- A stream runs on a turn for each call that libcurl makes and for the end behind them, a response of
-- the native protocol on a turn for each reception and the failure behind them. All are shown to be
-- enough.
--
-- The transports stand for libraries outside the repository: libcurl is the list of what its calls of
-- `curl_multi_perform` deliver, clickhouse-c the list of what its receptions do and a failure behind
-- them, `realloc` a predicate, and the clipping of text at a character a function that makes it no longer.
--
-- In Deparse/Nulls a Datum is a number and `true` is 1. Columns, operators, functions and the rows of a
-- subquery's FROM are a `Database`, the same for both servers: that a remote function or = computes
-- what the local one does is the business of the checks on single nodes, which are the parameter
-- `accepts`. What ClickHouse answers for IN, has, countEqual and CASE is written out by its documentation.
-- A subquery with groups is a function of the rows that its WHERE keeps. ClickHouse has no NULL array:
-- an array that is no constant is never NULL in the model, so that a parameter, a function or an outer
-- join gives PostgreSQL a NULL array is outside it.
--
-- The drain of a response has no deadline here: one that expires is a reception that fails.
--
-- Not modelled: the planner and executor callbacks of fdw.c, joins, targets and the text of
-- single nodes in deparse.c, the decoding of results (pg-clickhouse-c), sockets and TLS in
-- binary/connection.c, and the cursor, which need the state of PostgreSQL's planner or of a
-- library that is not part of the repository.
mod Prelude
pub mod Nodes
pub mod Postgres
pub mod Identifiers
pub mod KvList
pub mod Options
pub mod ServerVersion
pub mod Endpoint
pub mod Binary
pub mod Http
pub mod Settings
pub mod VectorMeta
pub mod Connections
pub mod Deparse
pub mod Literals
mod Examples

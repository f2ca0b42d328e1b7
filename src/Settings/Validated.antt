-- ===== src/Settings/Validated.antt =====
-- The settings options that `clickhouse_fdw_validator` of src/option.c accepts are those that
-- src/settings.c can read.
use pg_clickhouse.Prelude.{
  Bytes, codes, true, ◌≡◌, refl, List, [], ◌∷◌, Option, some, str_eq, inl, inr, Bool-cases,
  Option-cases, Result, ok, err, ◌>>=◌, >>=-eq-ok,
}
use pg_clickhouse.Nodes.{DefElem}
use pg_clickhouse.Postgres.{Postgres}
use pg_clickhouse.Options.Scan.{ParseError}
use pg_clickhouse.Options.Parse.{parse_options}
use pg_clickhouse.Options.Table.{Catalog}
use pg_clickhouse.Options.Validate.{
  OptionError, or_invalid, when, check_name, check_secure, check_min_tls_version, check_settings,
  check_encoding, validate_option, validator,
}
use pg_clickhouse.Settings.{settings_option, overlay, table_settings}
use pg_clickhouse.Settings.Lookup.{Distinct, Distinct-overlay}
use pg_clickhouse.Settings.Query.{or_syntax, server_pairs}

-- In a chain of tests that passes, the fourth passes.
fourth :
    (a b c d e : Result OptionError (Unit {0}))
    → (do p ← a; q ← b; r ← c; t ← d; e) ≡ ok tt
    → d ≡ ok tt
fourth (err x) b c d e h = cc
fourth (ok u) (err x) c d e h = cc
fourth (ok u) (ok v) (err x) d e h = cc
fourth (ok u) (ok v) (ok w) (err x) e h = cc
fourth (ok u) (ok v) (ok w) (ok tt) e h = refl

module _ {E : Type 0} (pg : Postgres) (parse_encoding : Bytes → Option E) (catalog : Catalog) where
  or_invalid-ok :
      (r : Result ParseError (List DefElem))
      → or_invalid r ≡ ok tt
      → (ds : List DefElem) × (r ≡ ok ds)
  unfolding or_invalid
  or_invalid-ok (ok ds) h = (ds, refl)
  or_invalid-ok (err e) h = cc

  -- The test of a settings option.
  validated_option :
      (d : DefElem)
      → str_eq d.defname (codes "settings") ≡ true
      → validate_option pg parse_encoding catalog d ≡ ok tt
      → (ds : List DefElem) × (parse_options (pg.def_get_string d) ≡ ok ds)
  unfolding validate_option
  validated_option d named h =
      let passed =
        fourth (check_name pg parse_encoding catalog d) (check_secure pg parse_encoding d)
          (check_min_tls_version pg parse_encoding d) (check_settings pg parse_encoding d)
          (check_encoding pg parse_encoding d) h in
      or_invalid-ok (parse_options (pg.def_get_string d))
        (unfold check_settings when in rw named at passed)

  validated_settings :
      (options : List DefElem) (text : Bytes)
      → validator pg parse_encoding catalog options ≡ ok tt
      → settings_option pg options ≡ some text
      → (ds : List DefElem) × (parse_options text ≡ ok ds)
  unfolding validator settings_option
  validated_settings [] text h e = cc
  validated_settings (d ∷ options) text h e =
      let (valid, hd, hs) = >>=-eq-ok (validate_option pg parse_encoding catalog d) _ h in
      elim (Bool-cases (str_eq d.defname (codes "settings"))) [
        | inl named ↦
            let same : pg.def_get_string d ≡ text = cc in rw (← same) (validated_option d named hd)
        | inr other ↦ validated_settings options text hs (rw (other, settings_option) at e)
      ]

  -- A foreign table whose options the validator accepted has settings that can be read, and they
  -- name nothing twice.
  pub validator-table_settings :
      (options : List DefElem)
      → validator pg parse_encoding catalog options ≡ ok tt
      → (ds : List DefElem) × (table_settings pg options ≡ ok ds) × Distinct ds
  unfolding table_settings
  validator-table_settings options h = elim (Option-cases (settings_option pg options)) [
    | inl e ↦ ([], rw (e, table_settings), tt)
    | inr (text, e) ↦
        let (ds, p) = validated_settings options text h e in
        (overlay [] ds, rw (e, p, table_settings), Distinct-overlay [] ds tt)
  ]

  -- The settings option of a server that the validator accepted can be read.
  pub validator-server_pairs :
      (options : List DefElem)
      → validator pg parse_encoding catalog options ≡ ok tt
      → (ds : List DefElem) × (server_pairs (settings_option pg options) ≡ ok ds)
  unfolding server_pairs or_syntax
  validator-server_pairs options h = elim (Option-cases (settings_option pg options)) [
    | inl e ↦ ([], rw e)
    | inr (text, e) ↦
        let (ds, p) = validated_settings options text h e in (ds, rw (e, server_pairs, p))
  ]

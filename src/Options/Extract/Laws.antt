-- ===== src/Options/Extract/Laws.antt =====
-- What `chfdw_extract_options` of src/option.c gives, over all lists of options.
use pg_clickhouse.Prelude.{
  ℕ, ◌≤◌, ◌≢◌, ◌≡◌, refl, ap, ◌∙◌, Bytes, codes, true, false, List, [], ◌∷◌, Option, none, some,
  arith, str_eq, str_eq_iff, if◌then◌else◌, inl, inr, Bool-cases,
}
use pg_clickhouse.Nodes.{DefElem}
use pg_clickhouse.Postgres.{Postgres}
use pg_clickhouse.Options.Table.{is_ch_option}
use pg_clickhouse.Options.Extract.{
  Details, or_default, db_or_default, extract_driver, extract_client, extract_option,
  extract_options,
}
use pg_clickhouse.Options.Extract.Port.{parse_port, parse_port_bounds, int_max}

module _ {E : Type 0} (pg : Postgres) (parse_encoding : Bytes → Option E) where
  -- The value of the last option of a name, or else a default.
  unfoldable pub last_text : Bytes → List DefElem → Bytes → Bytes
  last_text k [] v = v
  last_text k (d ∷ ds) v = last_text k ds (if str_eq d.defname k then pg.def_get_string d else v)

  extract_client-host :
      (name val : Bytes) (d : Details E)
      → (extract_client pg parse_encoding name val d).host
        ≡ (if str_eq name (codes "host") then val else d.host)
  unfolding extract_client
  extract_client-host name val d = ground arith

  extract_driver-host :
      (name val : Bytes) (d : Details E)
      → (extract_driver pg parse_encoding name val d).host ≡ d.host
  unfolding extract_driver
  extract_driver-host name val d = ground arith

  host_is_client : (name : Bytes) → str_eq name (codes "host") ≡ true → is_ch_option name ≡ true
  unfolding is_ch_option str_eq
  host_is_client name e =
      let same : name ≡ codes "host" = (str_eq_iff name (codes "host")).0 e in rw same

  extract_option-host :
      (def : DefElem) (d : Details E)
      → (extract_option pg parse_encoding def d).host
        ≡ (if str_eq def.defname (codes "host") then pg.def_get_string def else d.host)
  unfolding extract_option
  extract_option-host def d = elim (Bool-cases (is_ch_option def.defname)) [
    | inl e ↦ rw (extract_option, e, extract_client-host, extract_driver-host)
    | inr e ↦
        let other : str_eq def.defname (codes "host") ≡ false =
          ground (arith, e, host_is_client def.defname) in
        rw (extract_option, e, other, extract_driver-host)
  ]

  -- The host that a list of options gives is that of its last "host" option, and where there is
  -- none, the host from before: so the options of a user mapping, read behind those of the server,
  -- win over them.
  pub extract_options-host :
      (ds : List DefElem) (d : Details E)
      → (extract_options pg parse_encoding ds d).host ≡ last_text (codes "host") ds d.host
  unfolding extract_options last_text
  extract_options-host [] d = refl
  extract_options-host (def ∷ ds) d =
      extract_options-host ds (extract_option pg parse_encoding def d)
      ∙ ap (last_text (codes "host") ds) (extract_option-host def d)

  -- A port is 0, for the default of the protocol, or fits an `int`; a database has a name.
  pub record IsUsable (d : Details E) : Type 0 where
    pub port_fits : d.port ≤ int_max
    pub database_named : d.dbname ≢ []

  extract_driver-IsUsable :
      (name val : Bytes) (d : Details E)
      → IsUsable d
      → IsUsable (extract_driver pg parse_encoding name val d)
  unfolding extract_driver
  extract_driver-IsUsable name val d h = record {
    port_fits = ground (arith, h.port_fits);
    database_named = ground (arith, h.database_named);
  }

  port_or-fits :
      (o : Option ℕ) (v : Bytes) (p : ℕ) → parse_port v ≡ o → p ≤ int_max → or_default p o ≤ int_max
  unfolding or_default
  port_or-fits none v p e h = h
  port_or-fits (some q) v p e h = (parse_port_bounds v e).1

  db_or_default-ne-nil : (v : Bytes) → db_or_default v ≢ []
  unfolding db_or_default
  db_or_default-ne-nil [] = ground arith
  db_or_default-ne-nil (c ∷ s) = ground arith

  extract_client-IsUsable :
      (name val : Bytes) (d : Details E)
      → IsUsable d
      → IsUsable (extract_client pg parse_encoding name val d)
  unfolding extract_client
  extract_client-IsUsable name val d h = record {
    port_fits =
        ground (arith, h.port_fits, port_or-fits (parse_port val) val d.port refl h.port_fits);
    database_named = ground (arith, h.database_named, db_or_default-ne-nil val);
  }

  extract_option-IsUsable :
      (def : DefElem) (d : Details E)
      → IsUsable d
      → IsUsable (extract_option pg parse_encoding def d)
  unfolding extract_option
  extract_option-IsUsable def d h =
      let val = pg.def_get_string def in
      let e = extract_driver-IsUsable def.defname val d h in
      elim (Bool-cases (is_ch_option def.defname)) [
        | inl c ↦ rw (extract_option, c) (extract_client-IsUsable def.defname val _ e)
        | inr c ↦ rw (extract_option, c) e
      ]

  -- Whatever options are read, the port stays 0 or in the range of an `int`, and the database keeps
  -- a name that is not empty.
  pub extract_options-IsUsable :
      (ds : List DefElem) (d : Details E)
      → IsUsable d
      → IsUsable (extract_options pg parse_encoding ds d)
  unfolding extract_options
  extract_options-IsUsable [] d h = h
  extract_options-IsUsable (def ∷ ds) d h =
      extract_options-IsUsable ds (extract_option pg parse_encoding def d)
        (extract_option-IsUsable def d h)

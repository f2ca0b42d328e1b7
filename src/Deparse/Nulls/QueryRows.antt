-- ===== src/Deparse/Nulls/QueryRows.antt =====
-- The rows and the output of a subquery.
use pg_clickhouse.Prelude.{
  ℕ, ◌≡◌, refl, ap, ◌∙◌, Bool, true, false, ◌&&◌, Option, none, some, List, [], ◌∷◌, map, All,
  if◌then◌else◌,
}
use pg_clickhouse.Deparse.Nulls.Values.{is_null, keep, is_nonempty}
use pg_clickhouse.Deparse.Nulls.Postgres.{Database, query_output}
use pg_clickhouse.Deparse.Nulls.Proved.{has_null}
use pg_clickhouse.Deparse.Nulls.NeverNull.{IsValue}

module _ {Row : Type 0} where
  abbrev pub one : Row → Option ℕ
  one r = some 1

  module _ (wanted : Row → Bool) (out : Row → Option ℕ) where
    keep_step :
        (w : Bool) (o : Option ℕ) (r : Row) (more less : List Row)
        → out r ≡ o
        → is_nonempty (map one more) ≡ has_null (map out less)
        → is_nonempty (map one (if w && is_null o then r ∷ more else more))
          ≡ has_null (map out (if w then r ∷ less else less))
    unfolding has_null is_null
    keep_step true none r more less value ih = rw value (unfold is_nonempty in refl)
    keep_step true (some d) r more less value ih = rw value ih
    keep_step false o r more less value ih = ih

    -- The rows with NULL in the output, looked for by a further condition.
    pub keep-has_null :
        (rows : List Row)
        → is_nonempty (map one (keep (λ r. wanted r && is_null (out r)) rows))
          ≡ has_null (map out (keep wanted rows))
    unfolding keep
    keep-has_null [] = unfold is_nonempty has_null in refl
    keep-has_null (r ∷ rows) = keep_step (wanted r) (out r) r _ _ refl (keep-has_null rows)

  pub keep-same :
      (p q : Row → Bool) (rows : List Row) → All (λ r. p r ≡ q r) rows → keep p rows ≡ keep q rows
  unfolding keep
  keep-same p q [] h = refl
  keep-same p q (r ∷ rows) (h, hs) = rw (h, keep-same p q rows hs) refl

  map-keep-same :
      (p : Row → Bool) (f g : Row → Option ℕ) (rows : List Row)
      → All (λ r. f r ≡ g r) rows
      → map f (keep p rows) ≡ map g (keep p rows)
  unfolding keep
  map-keep-same p f g [] h = refl
  map-keep-same p f g (r ∷ rows) (h, hs) = pick (p r) (keep p rows) (map-keep-same p f g rows hs)
    where
      pick :
          (b : Bool) (more : List Row)
          → map f more ≡ map g more
          → map f (if b then r ∷ more else more) ≡ map g (if b then r ∷ more else more)
      pick true more ih = rw (h, ih) refl
      pick false more ih = ih

  is_nonempty-map :
      (f g : Row → Option ℕ) (rows : List Row) → is_nonempty (map f rows) ≡ is_nonempty (map g rows)
  unfolding is_nonempty
  is_nonempty-map f g [] = refl
  is_nonempty-map f g (r ∷ rows) = refl

  -- Whether there is a row does not depend on the columns.
  pub query_output-columns :
      (db : Database Row) (id : ℕ) (grouped : Bool) (p : Row → Bool) (f g : Row → Option ℕ)
      (row : Row)
      → is_nonempty (query_output db id grouped p f row)
        ≡ is_nonempty (query_output db id grouped p g row)
  unfolding query_output
  query_output-columns db id true p f g row = refl
  query_output-columns db id false p f g row = is_nonempty-map f g (keep p (db.from_rows id row))

  -- Conditions and outputs that agree on the rows give the same output.
  pub query_output-same :
      (db : Database Row) (id : ℕ) (grouped : Bool) (p q : Row → Bool) (f g : Row → Option ℕ)
      (row : Row)
      → All (λ r. p r ≡ q r) (db.from_rows id row)
      → All (λ r. f r ≡ g r) (db.from_rows id row)
      → query_output db id grouped p f row ≡ query_output db id grouped q g row
  unfolding query_output
  query_output-same db id true p q f g row hp hf =
      ap (db.grouped_output id) (keep-same p q (db.from_rows id row) hp)
  query_output-same db id false p q f g row hp hf =
      ap (map f) (keep-same p q (db.from_rows id row) hp)
      ∙ map-keep-same q f g (db.from_rows id row) hf

  pub All-map-keep :
      (p : Row → Bool) (f : Row → Option ℕ) (rows : List Row)
      → All (λ r. IsValue (f r)) rows
      → All IsValue (map f (keep p rows))
  unfolding keep
  All-map-keep p f [] h = tt
  All-map-keep p f (r ∷ rows) (h, hs) = pick (p r) (keep p rows) (All-map-keep p f rows hs)
    where
      pick :
          (b : Bool) (more : List Row)
          → All IsValue (map f more)
          → All IsValue (map f (if b then r ∷ more else more))
      pick true more ih = (h, ih)
      pick false more ih = ih

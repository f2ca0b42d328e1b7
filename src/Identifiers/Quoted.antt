-- ===== src/Identifiers/Quoted.antt =====
-- What ClickHouse reads of the identifiers of src/custom_types.c.
use pg_clickhouse.Prelude.{
  ℕ, suc, ◌<◌, Bytes, codes, true, false, ◌||◌, List, [], ◌∷◌, Option, none, some, ◌==◌, ltb, leb,
  if◌then◌else◌, length, str_eq, Result, ok, err, ok-injective, ◌>>=◌, >>=-eq-ok, ◌≡◌, ap, sym,
  subst, ◌⊎◌, inl, inr, Bool-cases, and_true, arith,
}
use pg_clickhouse.Nodes.{DefElem}
use pg_clickhouse.Postgres.{Postgres}
use pg_clickhouse.Identifiers.{
  TableError, invalid_identifier, invalid_engine_parameter, double_quote, backtick, escape_byte,
  ends_in, not_empty, is_closed, is_quoted, check_quoted, ch_quote_ident, plain,
  collapsing_merge_tree, aggregating_merge_tree, starts_with_folded, index, rindex, RemoteTable,
  sign_between, store_sign, apply_engine, apply_custom_table_options,
}

-- How ClickHouse reads on in an identifier that the quote `q` opened, by its documentation: a
-- backslash escapes the next byte, and a doubled quote stands for one; what stands behind its end.
unfoldable pub after_identifier : ℕ → Bytes → Option Bytes
after_identifier q [] = none
after_identifier q (c ∷ []) = if c == escape_byte then none else if c == q then some [] else none
after_identifier q (c ∷ d ∷ s) =
    let skipped = after_identifier q s in
    let passed = after_identifier q (d ∷ s) in
    if c == escape_byte
    then skipped
    else if c == q
    then (if d == q then skipped else some (d ∷ s))
    else passed

-- One identifier in double quotes or in backticks, the two kinds that ClickHouse has, and nothing
-- else.
pub data IsIdentifier : Bytes → Type 0 where
  in_double_quotes : (s : Bytes) → after_identifier b'"' s ≡ some [] → IsIdentifier (b'"' ∷ s)
  in_backticks : (s : Bytes) → after_identifier b'`' s ≡ some [] → IsIdentifier (b'`' ∷ s)

quote-cases : (q : ℕ) → (q == double_quote || q == backtick) ≡ true → (q ≡ b'"') ⊎ (q ≡ b'`')
quote-cases q h = ground arith

IsIdentifier-quoted :
    (q : ℕ) (s : Bytes)
    → (q == double_quote || q == backtick) ≡ true
    → after_identifier q s ≡ some []
    → IsIdentifier (q ∷ s)
IsIdentifier-quoted q s h read = elim (quote-cases q h) [
  | inl same ↦
      subst (λ c. IsIdentifier (c ∷ s)) (sym same)
        (in_double_quotes s (subst (λ c. after_identifier c s ≡ some []) same read))
  | inr same ↦
      subst (λ c. IsIdentifier (c ∷ s)) (sym same)
        (in_backticks s (subst (λ c. after_identifier c s ≡ some []) same read))
]

after_identifier-closed :
    (q : ℕ) (s : Bytes)
    → (q == escape_byte) ≡ false
    → ends_in q s ≡ true
    → is_closed q s ≡ true
    → after_identifier q s ≡ some []
unfolding ends_in is_closed not_empty after_identifier
after_identifier-closed q [] h last closed = cc
after_identifier-closed q (c ∷ []) h last closed = ground arith
after_identifier-closed q (c ∷ d ∷ []) h last closed = ground arith
after_identifier-closed q (c ∷ d ∷ e ∷ s) h last closed =
    by_case (Bool-cases (c == escape_byte)) (Bool-cases (c == q)) (Bool-cases (d == q))
      (λ w. after_identifier-closed q (e ∷ s) h last w)
      (λ w. after_identifier-closed q (d ∷ e ∷ s) h last w)
  where
    by_case :
        ((c == escape_byte) ≡ true) ⊎ ((c == escape_byte) ≡ false)
        → ((c == q) ≡ true) ⊎ ((c == q) ≡ false)
        → ((d == q) ≡ true) ⊎ ((d == q) ≡ false)
        → (is_closed q (e ∷ s) ≡ true → after_identifier q (e ∷ s) ≡ some [])
        → (is_closed q (d ∷ e ∷ s) ≡ true → after_identifier q (d ∷ e ∷ s) ≡ some [])
        → after_identifier q (c ∷ d ∷ e ∷ s) ≡ some []
    by_case (inl x) y z skip pass = rw x (skip (rw x at closed))
    by_case (inr x) (inl y) (inl z) skip pass = rw (x, y, z) (skip (rw (x, y, z) at closed))
    by_case (inr x) (inl y) (inr z) skip pass =
        let bad : false ≡ true = rw (x, y, z) at closed in cc
    by_case (inr x) (inr y) z skip pass = rw (x, y) (pass (rw (x, y) at closed))

name_sizes : (n : ℕ) → (n == 0 || ltb 63 n) ≡ false → (0 < n) × (n < 64)
name_sizes n h = (ground arith, ground arith)

quoted_sizes : (n : ℕ) → (n == 1 || ltb 127 (suc n)) ≡ false → 0 < n → 2 < suc n
quoted_sizes n h more = ground arith

quote-ne-escape_byte :
    (q : ℕ) → (q == double_quote || q == backtick) ≡ true → (q == escape_byte) ≡ false
quote-ne-escape_byte q h = ground arith

ends_in-longer : (q : ℕ) (s : Bytes) → ends_in q s ≡ true → 0 < length s
unfolding ends_in
ends_in-longer q [] h = absurd cc
ends_in-longer q (c ∷ s) h = omega arith

module _ (quote_ch_ident : Bytes → Bytes) where
  -- Either a name that is not too long, quoted by the library, or one quoted identifier.
  pub data IsSign : Bytes → Type 0 where
    by_library : (name : Bytes) → 0 < length name → length name < 64 → IsSign (quote_ch_ident name)
    as_given : (s : Bytes) → IsIdentifier s → 2 < length s → IsSign s

  IsSign-check_quoted :
      (ident s : Bytes) → is_quoted ident ≡ true → check_quoted ident ≡ ok s → IsSign s
  unfolding is_quoted check_quoted
  IsSign-check_quoted [] s q h = absurd cc
  IsSign-check_quoted (q ∷ rest) s quoted_so h = elim (Bool-cases (is_closed q rest)) [
    | inr early ↦ let refused : err invalid_identifier ≡ ok s = rw early at h in absurd cc
    | inl closed ↦ elim (Bool-cases (length rest == 1 || ltb 127 (suc (length rest)))) [
      | inl bad ↦ let refused : err invalid_identifier ≡ ok s = rw (closed, bad) at h in absurd cc
      | inr fine ↦
          let (quote, last) =
            and_true (q == double_quote || q == backtick) (ends_in q rest) quoted_so in
          let one =
            IsIdentifier-quoted q rest quote
              (after_identifier-closed q rest (quote-ne-escape_byte q quote) last closed) in
          let long = quoted_sizes (length rest) fine (ends_in-longer q rest last) in
          let same : ok (q ∷ rest) ≡ ok s = rw (closed, fine) at h in
          subst IsSign (ok-injective TableError (q ∷ rest) s same) (as_given (q ∷ rest) one long)
    ]
  ]

  IsSign-ch_quote_ident : (ident s : Bytes) → ch_quote_ident quote_ch_ident ident ≡ ok s → IsSign s
  unfolding ch_quote_ident
  IsSign-ch_quote_ident ident s h = elim (Bool-cases (is_quoted ident)) [
    | inl y ↦ IsSign-check_quoted ident s y (rw y at h)
    | inr n ↦ elim (Bool-cases (length ident == 0 || ltb 63 (length ident))) [
      | inl bad ↦ let refused : err invalid_identifier ≡ ok s = rw (n, bad) at h in absurd cc
      | inr fine ↦
          let same : ok (quote_ch_ident ident) ≡ ok s = rw (n, fine) at h in
          subst IsSign (ok-injective TableError (quote_ch_ident ident) s same) (
            let (some_name, short) = name_sizes (length ident) fine in
            by_library ident some_name short)
    ]
  ]

  -- The field for the sign holds a C string that `quote_ch_ident` made, or that is an identifier.
  unfoldable pub IsSafe : RemoteTable → Type 0
  IsSafe table =
      table.table_engine ≡ collapsing_merge_tree
      → (length table.sign_field < 128) × IsSign table.sign_field

  IsSafe-store_sign :
      (s : Bytes) (table : RemoteTable) → IsSign s → store_sign s ≡ ok table → IsSafe table
  unfolding store_sign IsSafe
  IsSafe-store_sign s table sign h collapsing = elim (Bool-cases (leb 128 (length s))) [
    | inl long ↦ let refused : err invalid_engine_parameter ≡ ok table = rw long at h in absurd cc
    | inr short ↦
        let stored : ok (record { table_engine = collapsing_merge_tree; sign_field = s })
            ≡ ok table =
          rw short at h in
        let same =
          ap (λ (t : RemoteTable). t.sign_field) (ok-injective TableError _ table stored) in
        let fits : length s < 128 = ground arith in
        subst (λ f. (length f < 128) × IsSign f) same (fits, sign)
  ]

  IsSafe-quote :
      (sign : Result TableError Bytes) (table : RemoteTable)
      → (sign >>= (λ t. ch_quote_ident quote_ch_ident t >>= (λ q. store_sign q))) ≡ ok table
      → IsSafe table
  IsSafe-quote sign table h =
      let (text, found, rest) = >>=-eq-ok sign _ h in
      let (made, quoting, storing) = >>=-eq-ok (ch_quote_ident quote_ch_ident text) _ rest in
      IsSafe-store_sign made table (IsSign-ch_quote_ident text made quoting) storing

  IsSafe-apply_engine :
      (val : Bytes) (before after : RemoteTable)
      → IsSafe before
      → apply_engine quote_ch_ident val before ≡ ok after
      → IsSafe after
  unfolding apply_engine
  IsSafe-apply_engine val before after safe h =
      elim (Bool-cases (starts_with_folded (codes "collapsingmergetree") val)) [
        | inl y ↦
            IsSafe-quote (sign_between val (index b'(' val) (rindex b')' val)) after (rw y at h)
        | inr n ↦ elim (Bool-cases (starts_with_folded (codes "aggregatingmergetree") val)) [
          | inl y ↦
              let stored : ok (record before { table_engine = aggregating_merge_tree }) ≡ ok after =
                rw (n, y) at h in
              subst IsSafe (ok-injective TableError _ after stored)
                (unfold IsSafe in λ bad. absurd cc)
          | inr z ↦
              let kept : ok before ≡ ok after = rw (n, z) at h in
              subst IsSafe (ok-injective TableError before after kept) safe
        ]
      ]

  IsSafe-apply :
      (pg : Postgres) (options : List DefElem) (before after : RemoteTable)
      → IsSafe before
      → apply_custom_table_options quote_ch_ident pg options before ≡ ok after
      → IsSafe after
  unfolding apply_custom_table_options
  IsSafe-apply pg [] before after safe h =
      subst IsSafe (ok-injective TableError before after h) safe
  IsSafe-apply pg (d ∷ options) before after safe h =
      let (next, first, rest) =
        >>=-eq-ok
          (if str_eq d.defname (codes "engine")
            then apply_engine quote_ch_ident (pg.def_get_string d) before
            else ok before)
          _ h in
      IsSafe-apply pg options next after
        (step (Bool-cases (str_eq d.defname (codes "engine"))) next first) rest
    where
      step :
          (str_eq d.defname (codes "engine") ≡ true) ⊎ (str_eq d.defname (codes "engine") ≡ false)
          → (next : RemoteTable)
          → (if str_eq d.defname (codes "engine")
              then apply_engine quote_ch_ident (pg.def_get_string d) before
              else ok before)
            ≡ ok next
          → IsSafe next
      step (inl y) next first =
          IsSafe-apply_engine (pg.def_get_string d) before next safe (rw y at first)
      step (inr n) next first =
          let kept : ok before ≡ ok next = rw n at first in
          subst IsSafe (ok-injective TableError before next kept) safe

  -- Whatever options a table has, the sign column of its engine is put in a query only as a name of 1 to
  -- 63 bytes that the library quotes, or as one identifier in double quotes or backticks, which the
  -- server reads to its last byte and not beyond: no engine option smuggles other text into a query.
  -- The column and its NUL fit the field of the table.
  pub IsSign-apply_custom_table_options :
      (pg : Postgres) (options : List DefElem) (before after : RemoteTable)
      → before.table_engine ≡ plain
      → apply_custom_table_options quote_ch_ident pg options before ≡ ok after
      → after.table_engine ≡ collapsing_merge_tree
      → (length after.sign_field < 128) × IsSign after.sign_field
  IsSign-apply_custom_table_options pg options before after start h =
      unfold IsSafe in
      IsSafe-apply pg options before after (unfold IsSafe in λ collapsing. absurd cc) h

-- ===== src/Options/Parse/Bytewise.antt =====
-- `chfdw_parse_options` of src/option.c makes up no bytes: what holds of every byte of its input
-- holds of every byte of the names and values that it returns.
use pg_clickhouse.Prelude.{
  ℕ, zero, suc, Bytes, Bool, true, false, ◌≡◌, length, List, [], ◌∷◌, ◌++◌, is_space, All,
  All-append, inl, inr, Bool-cases, Result, Result-cases, ok, err, >>=-eq-ok, ok-injective, ◌==◌,
  subst,
}
use pg_clickhouse.Nodes.{DefElem, make}
use pg_clickhouse.Options.Scan.{
  ParseError, comma, backslash, quote, skip_spaces, read_name, end_plain, read_plain, read_quoted,
  end_quoted, nonempty, read_value,
}
use pg_clickhouse.Options.Parse.{parse_loop, parse_from, parse_options}
use pg_clickhouse.Options.Parse.Names.{text_of}

module _ (P : ℕ → Type 0) where
  abbrev Both : Bytes × Bytes → Type 0
  Both p = All P p.0 × All P p.1

  skip_spaces-All : (s : Bytes) → All P s → All P (skip_spaces s)
  unfolding skip_spaces
  skip_spaces-All [] h = h
  skip_spaces-All (c ∷ s) (hc, h) = elim (Bool-cases (is_space c)) [
    | inl e ↦ rw e (skip_spaces-All s h)
    | inr e ↦ rw e (hc, h)
  ]

  read_name-All : (s : Bytes) → All P s → Both (read_name s)
  unfolding read_name
  read_name-All [] h = (tt, tt)
  read_name-All (c ∷ s) (hc, h) = elim (Bool-cases (is_space c)) [
    | inl e ↦ rw e (tt, skip_spaces-All s h)
    | inr e ↦ let (n, r) = read_name-All s h in rw e ((hc, n), r)
  ]

  Both-ok :
      (q p : Bytes × Bytes)
      → Both q
      → ◌≡◌ {A = Result ParseError (Bytes × Bytes)} (ok q) (ok p)
      → Both p
  Both-ok q p h e = subst Both (ok-injective ParseError q p e) h

  end_plain-All :
      (pname out s : Bytes) (p : Bytes × Bytes)
      → All P out
      → All P s
      → end_plain pname out s ≡ ok p
      → Both p
  unfolding end_plain
  end_plain-All pname out [] p ho hs e = Both-ok (out, []) p (ho, tt) e
  end_plain-All pname out (c ∷ s) p ho hs e = elim (Bool-cases (c == comma)) [
    | inl b ↦ Both-ok (out, c ∷ s) p (ho, hs) (rw (b, end_plain) at e)
    | inr b ↦ let bad : err _ ≡ ok p = rw (b, end_plain) at e in cc
  ]

  snoc : (out : Bytes) (c : ℕ) → All P out → P c → All P (out ++ c ∷ [])
  snoc out c ho hc = All-append P out (c ∷ []) ho (hc, tt)

  read_plain-All :
      (pname : Bytes) (escaped : Bool) (out s : Bytes) (p : Bytes × Bytes)
      → All P out
      → All P s
      → read_plain pname escaped out s ≡ ok p
      → Both p
  unfolding read_plain
  read_plain-All pname true out [] p ho hs e = Both-ok (out, []) p (ho, tt) e
  read_plain-All pname false out [] p ho hs e = Both-ok (out, []) p (ho, tt) e
  read_plain-All pname true out (c ∷ s) p ho (hc, hs) e =
      read_plain-All pname false (out ++ c ∷ []) s p (snoc out c ho hc) hs e
  read_plain-All pname false out (c ∷ s) p ho (hc, hs) e = elim (Bool-cases (is_space c)) [
    | inl b ↦
        end_plain-All pname out (skip_spaces s) p ho (skip_spaces-All s hs)
          (rw (b, read_plain) at e)
    | inr nb ↦ elim (Bool-cases (c == comma)) [
      | inl b ↦ Both-ok (out, s) p (ho, hs) (rw (nb, b, read_plain) at e)
      | inr nc ↦ elim (Bool-cases (c == backslash)) [
        | inl b ↦ read_plain-All pname true out s p ho hs (rw (nb, nc, b, read_plain) at e)
        | inr b ↦
            read_plain-All pname false (out ++ c ∷ []) s p (snoc out c ho hc) hs
              (rw (nb, nc, b, read_plain) at e)
      ]
    ]
  ]

  read_quoted-All :
      (escaped : Bool) (out s : Bytes) (p : Bytes × Bytes)
      → All P out
      → All P s
      → read_quoted escaped out s ≡ ok p
      → Both p
  unfolding read_quoted
  read_quoted-All true out [] p ho hs e = cc
  read_quoted-All false out [] p ho hs e = cc
  read_quoted-All true out (c ∷ s) p ho (hc, hs) e =
      read_quoted-All false (out ++ c ∷ []) s p (snoc out c ho hc) hs e
  read_quoted-All false out (c ∷ s) p ho (hc, hs) e = elim (Bool-cases (c == quote)) [
    | inl b ↦ Both-ok (out, s) p (ho, hs) (rw (b, read_quoted) at e)
    | inr nq ↦ elim (Bool-cases (c == backslash)) [
      | inl b ↦ read_quoted-All true out s p ho hs (rw (nq, b, read_quoted) at e)
      | inr b ↦
          read_quoted-All false (out ++ c ∷ []) s p (snoc out c ho hc) hs
            (rw (nq, b, read_quoted) at e)
    ]
  ]

  end_quoted-All :
      (pname out s : Bytes) (p : Bytes × Bytes)
      → All P out
      → All P s
      → end_quoted pname out s ≡ ok p
      → Both p
  unfolding end_quoted
  end_quoted-All pname out [] p ho hs e = Both-ok (out, []) p (ho, tt) e
  end_quoted-All pname out (c ∷ s) p ho (hc, hs) e = elim (Bool-cases (c == comma)) [
    | inl b ↦ Both-ok (out, s) p (ho, hs) (rw (b, end_quoted) at e)
    | inr b ↦ let bad : err _ ≡ ok p = rw (b, end_quoted) at e in cc
  ]

  nonempty-All : (pname : Bytes) (q p : Bytes × Bytes) → Both q → nonempty pname q ≡ ok p → Both p
  unfolding nonempty
  nonempty-All pname ([], r) p h e = cc
  nonempty-All pname (c ∷ v, r) p h e = Both-ok (c ∷ v, r) p h e

  read_value-All :
      (pname s : Bytes) (p : Bytes × Bytes) → All P s → read_value pname s ≡ ok p → Both p
  unfolding read_value
  read_value-All pname [] p h e = cc
  read_value-All pname (c ∷ s) p (hc, h) e = elim (Bool-cases (c == quote)) [
    | inl b ↦
        let ((v, r), mid, last) = >>=-eq-ok (read_quoted false [] s) _ (rw (b, read_value) at e) in
        let (hv, hr) = read_quoted-All false [] s (v, r) tt h mid in
        end_quoted-All pname v (skip_spaces r) p hv (skip_spaces-All r hr) last
    | inr b ↦
        let (q, mid, last) =
          >>=-eq-ok (read_plain pname false [] (c ∷ s)) _ (rw (b, read_value) at e) in
        nonempty-All pname q p (read_plain-All pname false [] (c ∷ s) q tt (hc, h) mid) last
  ]

  abbrev pub Bytewise : DefElem → Type 0
  Bytewise d = All P d.defname × All P (text_of d.arg)

  parse_loop-All :
      (f : ℕ) (s : Bytes) (options ds : List DefElem)
      → All Bytewise options
      → All P s
      → parse_loop f s options ≡ ok ds
      → All Bytewise ds
  unfolding parse_loop text_of
  parse_loop-All zero s options ds h hs e = cc
  parse_loop-All (suc f) [] options ds h hs e =
      subst (All Bytewise) (ok-injective ParseError options ds e) h
  parse_loop-All (suc f) (c ∷ s) options ds h (hc, hs) e = elim (Bool-cases (is_space c)) [
    | inl blank ↦ parse_loop-All f s options ds h hs (rw (blank, parse_loop) at e)
    | inr start ↦ elim (Result-cases (read_value pname r)) [
      | inl ((v, rest), value) ↦
          let (hn, hr) = read_name-All (c ∷ s) (hc, hs) in
          let (hv, hrest) = read_value-All pname r (v, rest) hr value in
          parse_loop-All f rest (options ++ make pname v ∷ []) ds
            (All-append Bytewise options _ h ((hn, hv), tt)) hrest
            (rw (start, value, parse_loop) at e)
      | inr (x, bad) ↦ let no_list : err x ≡ ok ds = rw (start, bad, parse_loop) at e in cc
    ]
  ]
    where
      pname : Bytes
      pname = (read_name (c ∷ s)).0

      r : Bytes
      r = (read_name (c ∷ s)).1

  -- A predicate that holds of every byte of the input holds of every byte of each name and value.
  pub parse_options-Bytewise :
      (s : Bytes) {ds : List DefElem} → All P s → parse_options s ≡ ok ds → All Bytewise ds
  unfolding parse_options parse_from
  parse_options-Bytewise s {ds} h e = parse_loop-All (suc (length s)) s [] ds tt h e

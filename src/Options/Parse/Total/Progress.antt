-- ===== src/Options/Parse/Total/Progress.antt =====
-- How far the readers of src/option.c advance.
use pg_clickhouse.Prelude.{
  ℕ, zero, suc, ◌≤◌, ◌<◌, Bytes, Bool, true, false, List, [], ◌∷◌, ◌++◌, ◌≡◌, ◌≢◌, refl, arith,
  length, is_space, inl, inr, Bool-cases, ok, err, >>=-eq-ok, Result-cases, ◌==◌,
}
use pg_clickhouse.Nodes.{DefElem, make}
use pg_clickhouse.Options.Scan.{
  out_of_fuel, quote, skip_spaces, read_name, end_plain, read_plain, read_quoted, end_quoted,
  nonempty, read_value,
}
use pg_clickhouse.Options.Parse.{parse_loop}

pub length-skip_spaces : (s : Bytes) → length (skip_spaces s) ≤ length s
unfolding skip_spaces
length-skip_spaces [] = omega arith
length-skip_spaces (c ∷ s) = ground (arith, length-skip_spaces s)

pub length-read_name : (s : Bytes) → length (read_name s).1 ≤ length s
unfolding read_name
length-read_name [] = omega arith
length-read_name (c ∷ s) = ground (arith, length-read_name s, length-skip_spaces s)

-- A name that starts at a byte which is no blank takes that byte.
pub read_name_consumes :
    (c : ℕ) (s : Bytes) → is_space c ≡ false → length (read_name (c ∷ s)).1 ≤ length s
unfolding read_name
read_name_consumes c s h = ground (arith, length-read_name s)

pub end_plain_rest :
    (pname out s : Bytes) (p : Bytes × Bytes) → end_plain pname out s ≡ ok p → length p.1 ≤ length s
unfolding end_plain
end_plain_rest pname out [] p h = ground arith
end_plain_rest pname out (c ∷ s) p h = ground arith

pub read_plain_rest :
    (pname : Bytes) (escaped : Bool) (out s : Bytes) (p : Bytes × Bytes)
    → read_plain pname escaped out s ≡ ok p
    → length p.1 ≤ length s
unfolding read_plain
read_plain_rest pname escaped out [] p h = ground arith
read_plain_rest pname true out (c ∷ s) p h =
    ground (arith, read_plain_rest pname false (out ++ c ∷ []) s p)
read_plain_rest pname false out (c ∷ s) p h = ground (
  arith,
  read_plain_rest pname true out s p,
  read_plain_rest pname false (out ++ c ∷ []) s p,
  end_plain_rest pname out (skip_spaces s) p,
  length-skip_spaces s,
)

pub read_quoted_rest :
    (escaped : Bool) (out s : Bytes) (p : Bytes × Bytes)
    → read_quoted escaped out s ≡ ok p
    → length p.1 ≤ length s
unfolding read_quoted
read_quoted_rest escaped out [] p h = ground arith
read_quoted_rest true out (c ∷ s) p h = ground (arith, read_quoted_rest false (out ++ c ∷ []) s p)
read_quoted_rest false out (c ∷ s) p h =
    ground (arith, read_quoted_rest true out s p, read_quoted_rest false (out ++ c ∷ []) s p)

pub end_quoted_rest :
    (pname out s : Bytes) (p : Bytes × Bytes)
    → end_quoted pname out s ≡ ok p
    → length p.1 ≤ length s
unfolding end_quoted
end_quoted_rest pname out [] p h = ground arith
end_quoted_rest pname out (c ∷ s) p h = ground arith

pub nonempty_lem : (pname : Bytes) (q p : Bytes × Bytes) → nonempty pname q ≡ ok p → q ≡ p
unfolding nonempty
nonempty_lem pname ([], r) p h = ground arith
nonempty_lem pname (c ∷ v, r) p h = ground arith

pub read_value_rest :
    (pname s : Bytes) (p : Bytes × Bytes) → read_value pname s ≡ ok p → length p.1 ≤ length s
unfolding read_value
read_value_rest pname [] p h = ground arith
read_value_rest pname (c ∷ s) p h = elim (Bool-cases (c == quote)) [
  | inl e ↦
      let ((v, r), mid, last) = >>=-eq-ok (read_quoted false [] s) _ (rw (e, read_value) at h) in
      omega (
        arith,
        read_quoted_rest false [] s (v, r) mid,
        length-skip_spaces r,
        end_quoted_rest pname v (skip_spaces r) p last,
      )
  | inr e ↦
      let (q, mid, last) =
        >>=-eq-ok (read_plain pname false [] (c ∷ s)) _ (rw (e, read_value) at h) in
      rw (← nonempty_lem pname q p last) (read_plain_rest pname false [] (c ∷ s) q mid)
]

pub end_plain-ne-out_of_fuel : (pname out s : Bytes) → end_plain pname out s ≢ err out_of_fuel
unfolding end_plain
end_plain-ne-out_of_fuel pname out [] = ground arith
end_plain-ne-out_of_fuel pname out (c ∷ s) = ground arith

-- More fuel than bytes: how much more makes no difference.
pub parse_loop_fuel :
    (f g : ℕ) (s : Bytes) (options : List DefElem)
    → length s < f
    → length s < g
    → parse_loop f s options ≡ parse_loop g s options
unfolding parse_loop
parse_loop_fuel zero g s options hf hg = absurd (omega arith)
parse_loop_fuel (suc f) zero s options hf hg = absurd (omega arith)
parse_loop_fuel (suc f) (suc g) [] options hf hg = refl
parse_loop_fuel (suc f) (suc g) (c ∷ s) options hf hg = elim (Bool-cases (is_space c)) [
  | inl blank ↦ rw blank (parse_loop_fuel f g s options (omega arith) (omega arith))
  | inr start ↦ rw start (elim (Result-cases (read_value pname r)) [
    | inl ((v, rest), e) ↦
        let fits : length rest ≤ length s =
          omega (arith, read_value_rest pname r (v, rest) e, read_name_consumes c s start) in
        rw e (parse_loop_fuel f g rest (options ++ make pname v ∷ []) (omega arith) (omega arith))
    | inr (e, bad) ↦ rw bad
  ])
]
  where
    pname : Bytes
    pname = (read_name (c ∷ s)).0

    r : Bytes
    r = (read_name (c ∷ s)).1

-- The rounds of the loop, with no fuel in sight.

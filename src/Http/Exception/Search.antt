-- ===== src/Http/Exception/Search.antt =====
-- The search of src/http.c for an exception.
use pg_clickhouse.Prelude.{
  ℕ, zero, suc, ◌<◌, Bytes, starts_with, starts_with-append, false, [], ◌∷◌, ◌++◌, length,
  length-append, ◌≡◌, refl, sym, ap, subst, inl, inr, Bool-cases, arith,
}
use pg_clickhouse.Http.Exception.{
  code_text, from_text, found_code, find_loop, find_exception, first_exception,
}

find_loop-code :
    (n : ℕ) (r : Bytes)
    → find_loop n r ≡ first_exception r
    → find_loop (suc n) (code_text ++ r) ≡ first_exception (code_text ++ r)
unfolding find_loop first_exception from_text starts_with found_code
find_loop-code n r h = rw h refl

find_loop-apart :
    (n c : ℕ) (s : Bytes)
    → starts_with code_text (c ∷ s) ≡ false
    → find_loop (suc n) s ≡ first_exception s
    → find_loop (suc n) (c ∷ s) ≡ first_exception (c ∷ s)
unfolding find_loop first_exception from_text
find_loop-apart n c s apart h = rw apart h

find_loop-first : (n : ℕ) (s : Bytes) → length s < n → find_loop n s ≡ first_exception s
find_loop-first zero s enough = absurd (omega arith)
find_loop-first (suc n) [] enough =
    unfold find_loop first_exception from_text starts_with found_code in refl
find_loop-first (suc n) (c ∷ s) enough = elim (Bool-cases (starts_with code_text (c ∷ s))) [
  | inr apart ↦ find_loop-apart n c s apart (find_loop-first (suc n) s (omega arith))
  | inl here ↦
      let (r, all) = starts_with-append code_text (c ∷ s) here in
      let longer : suc (length s) ≡ length (code_text ++ r) = ap length all in
      let more = length-append code_text r in
      subst (λ t. find_loop (suc n) t ≡ first_exception t) (sym all)
        (find_loop-code n r (find_loop-first n r (omega arith)))
]

-- The search that passes six bytes at a time finds the same exception as a search byte by byte: the
-- first place in the tail where "Code: " stands before a digit, however often the text stands there
-- without one, and none if there is no such place.
pub find_exception-first : (tail : Bytes) → find_exception tail ≡ first_exception tail
unfolding find_exception
find_exception-first tail = find_loop-first (suc (length tail)) tail (omega arith)

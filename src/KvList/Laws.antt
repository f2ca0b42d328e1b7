-- ===== src/KvList/Laws.antt =====
-- The pairs put into a `kv_list` by src/kv_list.c are the pairs that its iterator delivers.
use pg_clickhouse.Prelude.{
  ℕ, zero, suc, ◌+◌, ◌-◌, Bytes, Bool, true, false, ◌≡◌, ◌≢◌, refl, ap, subst, ◌∙◌, sym, List, [],
  ◌∷◌, ◌++◌, append_assoc, append-nil, some, arith, length, length-append, All, ok, err, >>=-eq-ok,
  Result-cases, ok-injective, inl, inr,
}
use pg_clickhouse.Nodes.{DefElem, make}
use pg_clickhouse.KvList.{
  Allocator, KvError, KvList, KvIter, pair_bytes, measure, fill, list_length, allocate_list,
  new_kv_list_from_pg_list, offsetof_data, new_kv_iter, c_string, advance, kv_iter_next,
}

abbrev pub NonNul : ℕ → Type 0
NonNul c = c ≢ 0

-- A pair of C strings.
abbrev pub IsCPair : Bytes × Bytes → Type 0
IsCPair p = All NonNul p.0 × All NonNul p.1

abbrev pub elem : Bytes × Bytes → DefElem
elem p = make p.0 p.1

abbrev pub elems : List (Bytes × Bytes) → List DefElem
elems [] = []
elems (p ∷ ps) = elem p ∷ elems ps

-- The block's content: every string followed by its NUL.
unfoldable pub pack : List (Bytes × Bytes) → Bytes
pack [] = []
pack (p ∷ ps) = p.0 ++ (0 ∷ (p.1 ++ (0 ∷ pack ps)))

pub c_string-append : (t s : Bytes) → All NonNul t → c_string (t ++ 0 ∷ s) ≡ some (t, s)
unfolding c_string
c_string-append [] s h = refl
c_string-append (zero ∷ t) s (hc, h) = absurd (hc refl)
c_string-append (suc c ∷ t) s (hc, h) = rw (c_string-append t s h)

fill-pack :
    (content : Bytes) (ps : List (Bytes × Bytes))
    → fill content (elems ps) ≡ ok (content ++ pack ps)
unfolding fill pack
fill-pack content [] = rw append-nil
fill-pack content (p ∷ ps) =
    fill-pack (content ++ (p.0 ++ 0 ∷ []) ++ (p.1 ++ 0 ∷ [])) ps ∙ ap ok (simp append_assoc)

list_length-elems : (ps : List (Bytes × Bytes)) → list_length (elems ps) ≡ length ps
unfolding list_length
list_length-elems [] = refl
list_length-elems (p ∷ ps) = ap suc (list_length-elems ps)

-- The two loops agree on the size: the assertion behind them holds.
measure-fill :
    (n : ℕ) (content : Bytes) (ds : List DefElem) {size : ℕ} {filled : Bytes}
    → n ≡ length content
    → measure n ds ≡ ok size
    → fill content ds ≡ ok filled
    → size ≡ length filled
unfolding measure fill
measure-fill n content [] {size} {filled} e m f =
    sym (ok-injective KvError n size m) ∙ e ∙ ap length (ok-injective KvError content filled f)
measure-fill n content (d ∷ ds) e m f = elim (Result-cases (pair_bytes d)) [
  | inl ((name, value), p) ↦
      measure-fill (n + (2 + length name + length value))
        (content ++ (name ++ 0 ∷ []) ++ (value ++ 0 ∷ [])) ds
        (omega (
          arith,
          e,
          length-append content (name ++ 0 ∷ []),
          length-append (content ++ (name ++ 0 ∷ [])) (value ++ 0 ∷ []),
          length-append name (0 ∷ []),
          length-append value (0 ∷ []),
        ))
        (rw (p, measure) at m) (rw (p, fill) at f)
  | inr (x, p) ↦ let bad : err x ≡ ok _ = rw (p, measure) at m in cc
]

module _ (pg16 : Bool) (has_room : Allocator → ℕ → Bool) where
  -- Whatever list is packed, the second loop fills exactly the room that the first one measured: no
  -- byte is written past the allocation, and none of it is left over. The allocation is that room
  -- behind the length field.
  pub new_kv_list_fills :
      (ds : List DefElem) (a : ℕ) {kv : KvList}
      → new_kv_list_from_pg_list pg16 has_room ds a ≡ ok kv
      → (size : ℕ) × (got : Allocator) × (measure 0 ds ≡ ok size)
        × (allocate_list pg16 has_room (offsetof_data + size) a ≡ ok got)
        × (length kv.content ≡ size)
        × (kv.count ≡ list_length ds)
  unfolding new_kv_list_from_pg_list
  new_kv_list_fills ds a h =
      let (size, m, h1) = >>=-eq-ok (measure 0 ds) _ h in
      let (room, r, h2) = >>=-eq-ok (allocate_list pg16 has_room (offsetof_data + size) a) _ h1 in
      let (content, f, h3) = >>=-eq-ok (fill [] ds) _ h2 in
      let same = ok-injective KvError _ _ h3 in
      (
        size,
        room,
        m,
        r,
        ap (λ (k : KvList). length k.content) (sym same) ∙ sym (measure-fill 0 [] ds refl m f),
        ap (λ (k : KvList). k.count) (sym same),
      )

  pub new_kv_list-pack :
      (ps : List (Bytes × Bytes)) (a : ℕ) {kv : KvList}
      → new_kv_list_from_pg_list pg16 has_room (elems ps) a ≡ ok kv
      → kv ≡ record { count = length ps; content = pack ps }
  unfolding new_kv_list_from_pg_list
  new_kv_list-pack ps a h =
      let (size, m, h1) = >>=-eq-ok (measure 0 (elems ps)) _ h in
      let (room, r, h2) = >>=-eq-ok (allocate_list pg16 has_room (offsetof_data + size) a) _ h1 in
      let (content, f, h3) = >>=-eq-ok (fill [] (elems ps)) _ h2 in
      sym (ok-injective KvError _ _ h3) ∙ λ i. record {
        count = list_length-elems ps i;
        content = ok-injective KvError content (pack ps) (sym f ∙ fill-pack [] ps) i;
      }

-- The iterator delivers these pairs in order, says after the last that none is left, and reads
-- nothing behind the end of the block.
pub data Yields : KvIter → List (Bytes × Bytes) → Type 0 where
  done : (it : KvIter) → kv_iter_next it ≡ some (false, it) → Yields it []
  item :
      (it it' : KvIter) (p : Bytes × Bytes) (ps : List (Bytes × Bytes))
      → kv_iter_next it ≡ some (true, it')
      → it'.name ≡ p.0
      → it'.value ≡ p.1
      → Yields it' ps
      → Yields it (p ∷ ps)

kv_iter_next-suc :
    (k : ℕ) (next n v : Bytes)
    → kv_iter_next (record { togo = suc k; next = next; name = n; value = v }) ≡ advance k next
unfolding kv_iter_next
kv_iter_next-suc k next n v = let one : suc k - 1 ≡ k = omega arith in rw one (ground arith)

advance-pack :
    (k : ℕ) (p : Bytes × Bytes) (rest : Bytes)
    → IsCPair p
    → advance k (p.0 ++ 0 ∷ (p.1 ++ 0 ∷ rest))
      ≡ some (true, record { togo = k; next = rest; name = p.0; value = p.1 })
unfolding advance
advance-pack k p rest (hn, hv) =
    rw (advance, c_string-append p.0 (p.1 ++ 0 ∷ rest) hn, c_string-append p.1 rest hv)

Yields-pack :
    (ps : List (Bytes × Bytes)) (n v : Bytes)
    → All IsCPair ps
    → Yields (record { togo = length ps; next = pack ps; name = n; value = v }) ps
unfolding pack
Yields-pack [] n v h =
    done (record { togo = 0; next = []; name = n; value = v }) (unfold kv_iter_next in refl)
Yields-pack (p ∷ ps) n v (hp, h) =
    item _ (record { togo = length ps; next = pack ps; name = p.0; value = p.1 }) p ps
      (kv_iter_next-suc (length ps) _ n v ∙ advance-pack (length ps) p (pack ps) hp) refl refl
      (Yields-pack ps p.0 p.1 h)

-- Pairs of C strings that are packed into a list, by whatever allocator, are what an iterator over
-- that list delivers: each once, in order, with no read outside the block.
pub Yields-new_kv_list :
    (pg16 : Bool) (has_room : Allocator → ℕ → Bool) (ps : List (Bytes × Bytes)) (a : ℕ)
    {kv : KvList}
    → All IsCPair ps
    → new_kv_list_from_pg_list pg16 has_room (elems ps) a ≡ ok kv
    → Yields (new_kv_iter (some kv)) ps
unfolding new_kv_iter
Yields-new_kv_list pg16 has_room ps a h e =
    subst (λ (k : KvList). Yields (new_kv_iter (some k)) ps)
      (sym (new_kv_list-pack pg16 has_room ps a e)) (Yields-pack ps [] [] h)

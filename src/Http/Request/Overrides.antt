-- ===== src/Http/Request/Overrides.antt =====
-- What a server reads of the parameters of src/http.c.
use pg_clickhouse.Prelude.{
  ℕ, zero, suc, ◌+◌, ◌≤◌, ◌<◌, Bytes, Bool, true, false, List, [], ◌∷◌, ◌++◌, Option, some, ◌==◌,
  if◌then◌else◌, length, length-append, length-take, take, str_eq, str_eq_iff, All, ◌≡◌, ◌≢◌, ◌↔◌,
  refl, sym, ap, subst, ◌∙◌, ◌⊎◌, inl, inr, Bool-cases, arith,
}
use pg_clickhouse.Http.Request.{
  Setting, is_overridden, temp_buf, joined, parameter, split, last_setting,
}

-- A setting whose text is not cut, and whose name can be told from its value.
abbrev IsShort : Setting → Type 0
IsShort s = All (λ c. c ≢ b'=') s.0 × (length s.0 + 1 + length s.1 < 512)

take_all : (n : ℕ) (s : Bytes) → length s ≤ n → take n s ≡ s
take_all zero [] h = refl
take_all zero (c ∷ s) h = absurd (omega arith)
take_all (suc n) [] h = refl
take_all (suc n) (c ∷ s) h = ap (λ t. c ∷ t) (take_all n s (omega arith))

length-joined : (s : Setting) → length (joined s) ≡ length s.0 + 1 + length s.1
length-joined s = let both = length-append s.0 (b'=' ∷ s.1) in omega arith

split-joined :
    (name value : Bytes) → All (λ c. c ≢ b'=') name → split (name ++ b'=' ∷ value) ≡ (name, value)
unfolding split
split-joined [] value h = refl
split-joined (c ∷ name) value (hc, h) =
    let other : (c == b'=') ≡ false = ground arith in rw (other, split-joined name value h) refl

split-parameter : (s : Setting) → IsShort s → split (parameter s) ≡ s
unfolding parameter temp_buf
split-parameter s (clear, short) =
    let l = length-joined s in
    ap split (take_all 511 (joined s) (omega arith)) ∙ split-joined s.0 s.1 clear

-- A parameter in which a value is read holds the `=` as well.
length-split_value :
    (t : Bytes) → 0 < length (split t).1 → length (split t).0 + 1 + length (split t).1 ≤ length t
unfolding split
length-split_value [] = λ h. absurd (omega arith)
length-split_value (c ∷ t) = elim (Bool-cases (c == b'=')) [
  | inl y ↦ rw y (λ h. omega arith)
  | inr n ↦ rw n (λ h. omega (arith, length-split_value t h))
]

length-parameter : (s : Setting) → length (parameter s) ≤ 511
unfolding parameter temp_buf
length-parameter s = length-take 511 (joined s)

-- A server that splits a URL parameter at its first `=` reads a setting as it was set exactly if the
-- text "name=value" has less than 512 bytes: of a longer one it reads another name or value. The setting
-- has a value that is not empty and no `=` in its name.
pub split-parameter_iff :
    (s : Setting)
    → All (λ c. c ≢ b'=') s.0
    → 0 < length s.1
    → (split (parameter s) ≡ s) ↔ (length s.0 + 1 + length s.1 < 512)
split-parameter_iff s clear valued = (
  λ same.
      let value : 0 < length (split (parameter s)).1 =
        subst (λ (p : Setting). 0 < length p.1) (sym same) valued in
      let fits =
        subst (λ (p : Setting). length p.0 + 1 + length p.1 ≤ length (parameter s)) same
          (length-split_value (parameter s) value) in
      let short = length-parameter s in omega arith,
  λ short. split-parameter s (clear, short),
)

-- A setting that is replaced, or not, concerns no other name.
other_name :
    (k : Bytes) (overrides : List Setting) (s : Setting) (b : Bool)
    → is_overridden overrides s.0 ≡ b
    → (str_eq s.0 k ≡ false) ⊎ (is_overridden overrides k ≡ b)
other_name k overrides s b h = elim (Bool-cases (str_eq s.0 k)) [
  | inl same ↦ inr (subst (λ n. is_overridden overrides n ≡ b) ((str_eq_iff s.0 k).0 same) h)
  | inr other ↦ inl other
]

pub skipped :
    (k : Bytes) (overrides : List Setting) (s : Setting) (settings : List Setting)
    (before : Option Bytes)
    → is_overridden overrides s.0 ≡ true
    → (if is_overridden overrides k then before else last_setting k settings before) ≡ (
        if is_overridden overrides k
        then before
        else last_setting k settings (if str_eq s.0 k then some s.1 else before))
skipped k overrides s settings before replaced = elim (other_name k overrides s true replaced) [
  | inl other ↦ rw other refl
  | inr gone ↦ rw gone refl
]

pub passed :
    (k : Bytes) (overrides : List Setting) (s : Setting) (settings : List Setting)
    (before : Option Bytes)
    → is_overridden overrides s.0 ≡ false
    → (if is_overridden overrides k
        then (if str_eq s.0 k then some s.1 else before)
        else last_setting k settings (if str_eq s.0 k then some s.1 else before))
      ≡ (if is_overridden overrides k
          then before
          else last_setting k settings (if str_eq s.0 k then some s.1 else before))
passed k overrides s settings before kept = elim (other_name k overrides s false kept) [
  | inl other ↦ rw other refl
  | inr here ↦ rw here refl
]

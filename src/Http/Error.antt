-- ===== src/Http/Error.antt =====
-- `ch_http_copy_error` of src/http.c: the message of an error that the server reports.
use pg_clickhouse.Prelude.{
  ℕ, ◌+◌, ◌-◌, ◌%◌, ◌^◌, ◌≤◌, ◌<◌, min, Bytes, codes, starts_with, contains, IsPrefix, empty, byte,
  IsPrefix-refl, IsPrefix-trans, IsPrefix-take, length-IsPrefix, starts_with-IsPrefix,
  contains-IsPrefix, false, [], ◌∷◌, Option, none, some, ◌==◌, leb, if◌then◌else◌, length, take,
  ◌≡◌, refl, subst, inl, inr, Bool-cases, Option-cases, length-take, arith,
}

-- The bytes before the first NUL: what the functions on C strings see.
unfoldable pub until_nul : Bytes → Bytes
until_nul [] = []
until_nul (c ∷ s) = if c == 0 then [] else c ∷ until_nul s

abbrev pub version_text : Bytes
version_text = codes " (version "

unfoldable pub prepend : ℕ → Option Bytes → Option Bytes
prepend c none = none
prepend c (some s) = some (c ∷ s)

-- `strstr`: the bytes before the first place where the text begins.
unfoldable pub before_text : Bytes → Bytes → Option Bytes
unfolding starts_with prepend
before_text text [] = if starts_with text [] then some [] else none
before_text text (c ∷ s) =
    let rest = before_text text s in if starts_with text (c ∷ s) then some [] else prepend c rest

-- The bytes less a newline at their end.
unfoldable pub strip_newline : Bytes → Bytes
strip_newline [] = []
strip_newline (c ∷ []) = if c == 10 then [] else c ∷ []
strip_newline (c ∷ d ∷ s) = c ∷ strip_newline (d ∷ s)

unfoldable pub cut_or : Bytes → Option Bytes → Bytes
unfolding until_nul strip_newline
cut_or kept none = until_nul (strip_newline kept)
cut_or kept (some front) = front

-- `ch_http_copy_error`, with `pg_encoding_mbcliplen(PG_UTF8, data, clip, clip)` as `cliplen data clip`:
-- the C string that is left in `buf`. The buffers' sizes are far below 2^31, so that the cast to
-- `int` keeps them.
unfoldable pub copy_error : (Bytes → ℕ → ℕ) → ℕ → Bytes → Bytes
unfolding until_nul before_text cut_or
copy_error cliplen bufsize bytes =
    let clip = min (length bytes) ((bufsize + 2 ^ 64 - 1) % 2 ^ 64) in
    let kept = take (if leb (length bytes) 0 then 0 else cliplen bytes clip) bytes in
    cut_or kept (before_text version_text (until_nul kept))

IsPrefix-until_nul : (s : Bytes) → IsPrefix (until_nul s) s
unfolding until_nul
IsPrefix-until_nul [] = empty []
IsPrefix-until_nul (c ∷ s) = elim (Bool-cases (c == 0)) [
  | inl nul ↦ rw nul (empty (c ∷ s))
  | inr more ↦ rw more (byte c (until_nul s) s (IsPrefix-until_nul s))
]

IsPrefix-strip_newline : (s : Bytes) → IsPrefix (strip_newline s) s
unfolding strip_newline
IsPrefix-strip_newline [] = empty []
IsPrefix-strip_newline (c ∷ []) = elim (Bool-cases (c == 10)) [
  | inl newline ↦ rw newline (empty (c ∷ []))
  | inr other ↦ rw other (IsPrefix-refl (c ∷ []))
]
IsPrefix-strip_newline (c ∷ d ∷ s) =
    byte c (strip_newline (d ∷ s)) (d ∷ s) (IsPrefix-strip_newline (d ∷ s))

-- What stands before the first occurrence.
abbrev Front : Bytes → Bytes → Bytes → Type 0
Front text s front = IsPrefix front s × (contains text front ≡ false)

Front-byte :
    (text s : Bytes) (c : ℕ) (front : Bytes)
    → starts_with text (c ∷ s) ≡ false
    → Front text s front
    → Front text (c ∷ s) (c ∷ front)
unfolding contains
Front-byte text s c front apart (h, free) =
    let grows = byte c front s h in
    (grows, rw (starts_with-IsPrefix text (c ∷ front) (c ∷ s) grows apart) free)

before_text-some :
    (text s front : Bytes)
    → starts_with text [] ≡ false
    → before_text text s ≡ some front
    → Front text s front
unfolding before_text contains prepend
before_text-some text [] front solid h = let bad : none ≡ some front = rw solid at h in cc
before_text-some text (c ∷ s) front solid h = elim (Bool-cases (starts_with text (c ∷ s))) [
  | inl here ↦
      let found : some [] ≡ some front = rw here at h in
      let same : [] ≡ front = cc in subst (Front text (c ∷ s)) same (empty (c ∷ s), solid)
  | inr apart ↦ elim (Option-cases (before_text text s)) [
    | inl missing ↦ let bad : none ≡ some front = rw (apart, missing) at h in cc
    | inr (before, found) ↦
        let longer : some (c ∷ before) ≡ some front = rw (apart, found) at h in
        let same : c ∷ before ≡ front = cc in
        subst (Front text (c ∷ s)) same
          (Front-byte text s c before apart (before_text-some text s before solid found))
  ]
]

before_text-none : (text s : Bytes) → before_text text s ≡ none → contains text s ≡ false
unfolding before_text contains prepend
before_text-none text [] h = elim (Bool-cases (starts_with text [])) [
  | inl here ↦ let bad : some [] ≡ none = rw here at h in absurd cc
  | inr apart ↦ apart
]
before_text-none text (c ∷ s) h = elim (Bool-cases (starts_with text (c ∷ s))) [
  | inl here ↦ let bad : some [] ≡ none = rw here at h in absurd cc
  | inr apart ↦ elim (Option-cases (before_text text s)) [
    | inl missing ↦ rw apart (before_text-none text s missing)
    | inr (before, found) ↦ let bad : some (c ∷ before) ≡ none = rw (apart, found) at h in absurd cc
  ]
]

until_nul-IsPrefix : (p s : Bytes) → IsPrefix p s → IsPrefix (until_nul p) (until_nul s)
unfolding until_nul
until_nul-IsPrefix [] s (empty _) = empty (until_nul s)
until_nul-IsPrefix (c ∷ p) [] h = elim h [ ]
until_nul-IsPrefix (c ∷ p) (_ ∷ s) (byte _ _ _ h) = elim (Bool-cases (c == 0)) [
  | inl nul ↦ rw nul (empty [])
  | inr more ↦ rw more (byte c (until_nul p) (until_nul s) (until_nul-IsPrefix p s h))
]

-- The message of either way to end it.
cut_or-Front :
    (kept : Bytes) (front : Option Bytes)
    → before_text version_text (until_nul kept) ≡ front
    → Front version_text kept (cut_or kept front)
unfolding cut_or
cut_or-Front kept none h =
    let stripped = IsPrefix-strip_newline kept in
    (
      IsPrefix-trans _ _ kept (IsPrefix-until_nul (strip_newline kept)) stripped,
      contains-IsPrefix version_text _ (until_nul kept) (until_nul-IsPrefix _ kept stripped)
          (before_text-none version_text (until_nul kept) h),
    )
cut_or-Front kept (some front) h =
    let (early, free) =
      before_text-some version_text (until_nul kept) front (unfold starts_with in refl) h in
    (IsPrefix-trans front _ kept early (IsPrefix-until_nul kept), free)

-- The message is a part of the server's text from its first byte on, fits the buffer with its
-- NUL, and holds no version of the server, wherever the buffer's size cuts the text.
pub copy_error-clean :
    (cliplen : Bytes → ℕ → ℕ) (bufsize : ℕ) (bytes : Bytes)
    → ((s : Bytes) (k : ℕ) → cliplen s k ≤ k)
    → 0 < bufsize
    → bufsize < 2 ^ 31
    → IsPrefix (copy_error cliplen bufsize bytes) bytes
      × (length (copy_error cliplen bufsize bytes) < bufsize)
      × (contains version_text (copy_error cliplen bufsize bytes) ≡ false)
unfolding copy_error
copy_error-clean cliplen bufsize bytes clips some_room sane =
    let n =
      if leb (length bytes) 0
      then 0
      else cliplen bytes (min (length bytes) ((bufsize + 2 ^ 64 - 1) % 2 ^ 64)) in
    let (early, free) = cut_or-Front (take n bytes) _ refl in
    let small = length-IsPrefix _ (take n bytes) early in
    let whole = IsPrefix-trans _ (take n bytes) bytes early (IsPrefix-take n bytes) in
    let clipped = clips bytes (min (length bytes) ((bufsize + 2 ^ 64 - 1) % 2 ^ 64)) in
    let shorter = length-take n bytes in (whole, ground arith, free)

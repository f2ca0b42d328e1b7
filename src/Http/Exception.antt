-- ===== src/Http/Exception.antt =====
-- `ch_http_stream_exception` of src/http.c: the exception that the server writes behind a body.
pub mod Search
pub mod Drain
use pg_clickhouse.Prelude.{
  ℕ, zero, suc, ◌+◌, ◌<◌, Bytes, codes, starts_with, starts_with-append, is_digit, Bool, true,
  false, ◌&&◌, ◌||◌, [], ◌∷◌, ◌++◌, Option, none, some, leb, if◌then◌else◌, length, length-append,
  drop, append-nil, append_assoc, ◌≡◌, refl, sym, ap, subst, ◌∙◌, inl, inr, Bool-cases, arith,
}
use pg_clickhouse.Http.{Stream, pump, tail_size}
use pg_clickhouse.Http.Error.{copy_error}
use pg_clickhouse.Http.Tail.{last_bytes, IsTailed, IsTailed-pump}
use pg_clickhouse.Http.Body.{whole, cut, Reading, before, body, content, calls_left, Pumped}

abbrev pub code_text : Bytes
code_text = codes "Code: "

-- `memmem`: the bytes from the first place where the text begins.
unfoldable pub from_text : Bytes → Bytes → Option Bytes
unfolding starts_with
from_text text [] = if starts_with text [] then some [] else none
from_text text (c ∷ s) =
    let rest = from_text text s in if starts_with text (c ∷ s) then some (c ∷ s) else rest

unfoldable pub begins_with_digit : Bytes → Bool
unfolding is_digit
begins_with_digit [] = false
begins_with_digit (c ∷ s) = is_digit c

unfoldable pub found_code : Option Bytes → (Bytes → Option Bytes) → Option Bytes
unfolding begins_with_digit
found_code none next = none
found_code (some exc) next =
    let later = next (drop 6 exc) in if begins_with_digit (drop 6 exc) then some exc else later

-- The search of `ch_http_stream_exception`; each turn passes six bytes.
unfoldable pub find_loop : ℕ → Bytes → Option Bytes
unfolding from_text found_code
find_loop zero exc = none
find_loop (suc n) exc = found_code (from_text code_text exc) (find_loop n)

unfoldable pub find_exception : Bytes → Option Bytes
unfolding find_loop
find_exception tail = find_loop (suc (length tail)) tail

-- The same by its meaning: the first place where the text and a digit stand.
unfoldable pub first_exception : Bytes → Option Bytes
unfolding starts_with begins_with_digit
first_exception [] = none
first_exception (c ∷ s) =
    let rest = first_exception s in
    if starts_with code_text (c ∷ s) && begins_with_digit (drop 6 (c ∷ s))
    then some (c ∷ s)
    else rest

module _ (has_room : ℕ → Bool) (write_error : Bytes) where
  unfoldable pub drained : (ℕ → Stream → Option Stream) → ℕ → Stream × Bool → Option Stream
  drained again n (s, true) = again (n + length s.buf) s
  drained again n (s, false) = some s

  -- The first loop of `ch_http_stream_exception`, which reads what little remains; `n` is what it
  -- read so far. `none` is the end of the fuel.
  unfoldable pub drain_loop : ℕ → ℕ → Stream → Option Stream
  unfolding pump drained
  drain_loop zero n s = none
  drain_loop (suc k) n s =
      let more = drained (drain_loop k) n (pump has_room write_error (record s { buf = [] })) in
      if s.transfer_done || leb tail_size n then some s else more

  unfoldable pub tail_exception : (Bytes → Bytes) → Option Stream → Option (Option Bytes)
  unfolding find_exception
  tail_exception copy none = none
  tail_exception copy (some s) =
      some (elim (find_exception s.tail) [ none ↦ none | some exc ↦ some (copy exc) ])

  -- `ch_http_stream_exception`: the message that it copies, or none where it returns false. The fuel is
  -- one for each call of libcurl, and two.
  unfoldable pub stream_exception : (Bytes → ℕ → ℕ) → ℕ → Stream → Option (Option Bytes)
  unfolding drain_loop tail_exception copy_error
  stream_exception cliplen bufsize s =
      tail_exception (copy_error cliplen bufsize) (drain_loop (suc (suc (length s.curl))) 0 s)

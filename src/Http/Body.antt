-- ===== src/Http/Body.antt =====
-- `pump` and `ch_http_stream_next_chunk` of src/http.c: reading a response to its end.
pub mod Calls
pub mod Chunks
use pg_clickhouse.Prelude.{
  ℕ, zero, suc, ◌+◌, ◌≤◌, ◌<◌, Bytes, Bool, true, false, List, [], ◌∷◌, ◌++◌, Option, none, some,
  if◌then◌else◌, length, concat, append-nil, ◌≡◌, refl, sym, ap, subst, min, ◌∙◌, inl, inr,
  Bool-cases, arith,
}
use pg_clickhouse.Http.{
  Finish, finished, aborted, broke, Perform, multi_failed, performed, Stream, fail, conclude,
  is_some, after_perform, settle, write_all, pump_loop, pump, Chunk, end_of_body, chunk,
  chunk_error, out_of_fuel, chunk_from, pumped_chunk, next_loop, next_chunk,
}
use pg_clickhouse.Http.Tail.{Written, write_all-Written, write_all-unpaused}

-- How a reading ends: with the body's end, with an error, or before either.
pub data Ending : Type 0 where
  whole unread : Ending
  cut : Option Bytes → Ending

abbrev pub Reading : Type 0
Reading = Bytes × Ending

unfoldable pub before : Bytes → Reading → Reading
before bytes r = (bytes ++ r.0, r.1)

-- What one call of libcurl delivers, before what the later ones do; `e` is the message kept so far.
unfoldable pub delivered : Option Bytes → Bytes → Option Finish → Reading → Reading
unfolding before
delivered e bytes none later = before bytes later
delivered e bytes (some finished) later = (bytes, whole)
delivered e bytes (some aborted) later = ([], cut e)
delivered e bytes (some (broke msg)) later = ([], cut (some msg))

-- The body that a script of libcurl's calls amounts to, as one list of bytes.
unfoldable pub body : Option Bytes → List Perform → Reading
unfolding delivered
body e [] = ([], whole)
body e (multi_failed msg ∷ curl) = ([], cut (some msg))
body e (performed chunks code finish ∷ curl) = delivered e (concat chunks) finish (body e curl)

-- What a stream still holds and will receive.
unfoldable pub content : Stream → Reading
unfolding before body
content s = before s.buf (if s.transfer_done then ([], whole) else body s.error_msg s.curl)

-- The calls of libcurl that are left, and the one that finds that none is.
unfoldable pub calls_left : Stream → ℕ
calls_left s = if s.transfer_done then 0 else suc (length s.curl)

unfoldable pub add_chunk : Chunk → Reading → Reading
unfolding before
add_chunk end_of_body later = ([], whole)
add_chunk (chunk bytes) later = before bytes later
add_chunk (chunk_error e) later = ([], cut e)
add_chunk out_of_fuel later = ([], unread)

module _ (has_room : ℕ → Bool) (write_error : Bytes) where
  -- A reader that asks for chunks until it is told that there are no more.
  unfoldable pub read_chunks : ℕ → Stream → Reading
  unfolding next_chunk add_chunk
  read_chunks zero s = ([], unread)
  read_chunks (suc n) s =
      let r = next_chunk has_room write_error s in add_chunk r.1 (read_chunks n r.0)

-- What a call of `pump` with an empty buffer does to what is still to be read.
unfoldable pub Pumped : Reading → ℕ → Stream × Bool → Type 0
unfolding content calls_left
Pumped all n (t, true) = (all ≡ content t) × (calls_left t ≤ n) × (t.streaming ≡ true)
Pumped all n (t, false) = all ≡ ([], cut t.error_msg)

-- The chunks that are left, at most.
unfoldable weight : Stream → ℕ
unfolding calls_left
weight s = calls_left s + min 1 (length s.buf)

-- What a chunk tells of all that was to be read.
unfoldable Delivers : Reading → ℕ → Stream × Chunk → Type 0
unfolding content weight
Delivers all n (t, end_of_body) = all ≡ ([], whole)
Delivers all n (t, chunk bytes) =
    (all ≡ before bytes (content t)) × (weight t < n) × (t.streaming ≡ true)
Delivers all n (t, chunk_error e) = all ≡ ([], cut e)
Delivers all n (t, out_of_fuel) = true ≡ false

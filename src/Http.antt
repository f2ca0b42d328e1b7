-- ===== src/Http.antt =====
-- src/http.c: one HTTP query as a stream. libcurl is what it does: a list of the calls of
-- `curl_multi_perform` that matter, behind which no transfer runs.
pub mod Error
pub mod Exception
pub mod Tail
pub mod Buffer
pub mod Body
pub mod Request
use pg_clickhouse.Prelude.{
  ℕ, ◌+◌, ◌-◌, ◌*◌, ◌%◌, ◌^◌, min, Bytes, Bool, true, false, not, ◌&&◌, ◌||◌, List, [], ◌∷◌, ◌++◌,
  Option, none, some, ◌==◌, ltb, leb, if◌then◌else◌, length, drop, zero, suc,
}

-- How a transfer ended, from `curl_multi_info_read`; `aborted` is `CURLE_ABORTED_BY_CALLBACK`.
pub data Finish : Type 0 where
  finished aborted : Finish
  broke : Bytes → Finish

-- One call of `curl_multi_perform`, and of `curl_easy_pause` before it: a failure of the call, or the
-- data that it hands to `write_callback`, the response code and the end of the transfer if it came.
pub data Perform : Type 0 where
  multi_failed : Bytes → Perform
  performed : List Bytes → ℕ → Option Finish → Perform

-- `HttpStream`; `buf` is its buffer up to `write_pos`.
pub record Stream : Type 0 where
  pub curl : List Perform
  pub buf : Bytes
  pub buf_allocated : ℕ
  pub streaming : Bool
  pub paused : Bool
  pub transfer_done : Bool
  pub tail : Bytes
  pub http_status : ℕ
  pub error_msg : Option Bytes

-- `CH_ERROR_MSG_LEN`.
abbrev pub tail_size : ℕ
tail_size = 4096

abbrev pub status_canceled : ℕ
status_canceled = 418

abbrev pub status_transport_error : ℕ
status_transport_error = 419

unfoldable pub status_ok : ℕ → Bool
status_ok status = leb 200 status && ltb status 300

-- The size that the buffer grows to; sizes are those of a 64-bit `size_t`.
unfoldable pub new_size : ℕ → ℕ → ℕ
new_size allocated needed =
    let doubled = (allocated * 2) % 2 ^ 64 in if ltb doubled needed then needed else doubled

unfoldable pub needed_size : Stream → Bytes → ℕ
needed_size s contents = (length s.buf + length contents + 1) % 2 ^ 64

-- The tail behind a receipt.
unfoldable pub new_tail : Bytes → Bytes → Bytes
new_tail tail contents =
    let n = min (length contents) tail_size in
    let keep = min (length tail) (tail_size - n) in
    drop (length tail - keep) tail ++ drop (length contents - n) contents

unfoldable pub append : Bytes → Stream → Stream
unfolding new_tail
append contents s = record {
  curl = s.curl;
  buf = s.buf ++ contents;
  buf_allocated = s.buf_allocated;
  streaming = s.streaming;
  paused = if s.streaming then true else s.paused;
  transfer_done = s.transfer_done;
  tail = if s.streaming then new_tail s.tail contents else s.tail;
  http_status = s.http_status;
  error_msg = s.error_msg;
}

-- `error_status`.
unfoldable pub error_status : ℕ → Bool
unfolding status_ok
error_status status =
    if (status == status_canceled) || (status == status_transport_error)
    then false
    else ltb 0 status && not (status_ok status)

-- What `ch_http_stream_next_chunk` hands out.
pub data Chunk : Type 0 where
  end_of_body : Chunk
  chunk : Bytes → Chunk
  chunk_error : Option Bytes → Chunk
  out_of_fuel : Chunk

unfoldable pub write_next : Option Stream → (Stream → Stream × Bool) → Stream → Stream × Bool
write_next none next s = (s, false)
write_next (some written) next s = next written

unfoldable pub fail : ℕ → Option Bytes → Stream → Stream × Bool
fail status msg s = (record s { http_status = status; error_msg = msg }, false)

-- What the end of a transfer means, behind the call that brought it.
unfoldable pub conclude : Option Finish → Stream → Stream × Bool
unfolding fail
conclude none s = (s, true)
conclude (some finished) s = (s, true)
conclude (some aborted) s = fail status_canceled s.error_msg s
conclude (some (broke msg)) s = fail status_transport_error (some msg) s

unfoldable pub is_some : {A : Type 0} → Option A → Bool
is_some none = false
is_some (some a) = true

unfoldable pub settle : Stream × Option Finish → (Stream → Stream × Bool) → Stream × Bool
unfolding conclude
settle (s, finish) again =
    let rest = again s in if s.paused || s.transfer_done then conclude finish s else rest

unfoldable pub pumped_chunk : (Stream → Stream × Chunk) → Stream × Bool → Stream × Chunk
pumped_chunk again (s, true) = again s
pumped_chunk again (s, false) = (s, chunk_error s.error_msg)

-- `has_room n` tells whether `realloc` delivers `n` bytes; `write_error` is libcurl's message for a
-- receipt that `write_callback` refused.
module _ (has_room : ℕ → Bool) (write_error : Bytes) where
  -- `write_callback`: `none` is `CURL_WRITEFUNC_ERROR`.
  unfoldable pub write_callback : Bytes → Stream → Option Stream
  unfolding needed_size new_size append
  write_callback contents s =
      let needed = needed_size s contents in
      let size = new_size s.buf_allocated needed in
      if ltb s.buf_allocated needed
      then (if has_room size
          then some (append contents (record s { buf_allocated = size }))
          else none)
      else some (append contents s)

  -- The receipts of one call, until one is refused.
  unfoldable pub write_all : List Bytes → Stream → Stream × Bool
  unfolding write_callback write_next
  write_all [] s = (s, true)
  write_all (c ∷ chunks) s = write_next (write_callback c s) (write_all chunks) s

  -- The stream behind one call whose receipts were taken, or not.
  unfoldable pub after_perform : Stream × Bool → ℕ → Option Finish → Stream × Option Finish
  unfolding is_some
  after_perform (s, true) code finish = (
    record s {
      http_status = code;
      transfer_done = if is_some finish then true else s.transfer_done;
    },
    finish,
  )
  after_perform (s, false) code finish =
      (record s { http_status = code; transfer_done = true }, some (broke write_error))

  -- The loop of `pump`. The status is read behind the loop; it is that of the last call.
  unfoldable pub pump_loop : List Perform → Stream → Stream × Bool
  unfolding fail write_all after_perform settle
  pump_loop [] s = (record s { curl = []; transfer_done = true }, true)
  pump_loop (multi_failed msg ∷ curl) s =
      fail status_transport_error (some msg) (record s { curl = curl })
  pump_loop (performed chunks code finish ∷ curl) s =
      settle (after_perform (write_all chunks (record s { curl = curl })) code finish)
        (pump_loop curl)

  -- `pump`; the flag tells that it returned 0.
  unfoldable pub pump : Stream → Stream × Bool
  unfolding pump_loop
  pump s = pump_loop s.curl (record s { paused = false })

  unfoldable pub chunk_from :
      Bytes → Bool → Stream → (Stream × Bool → Stream × Chunk) → Stream × Chunk
  unfolding pump
  chunk_from (c ∷ buf) done s pumped = (record s { buf = [] }, chunk (c ∷ buf))
  chunk_from [] true s pumped = (s, end_of_body)
  chunk_from [] false s pumped = pumped (pump s)

  -- The loop of `ch_http_stream_next_chunk`.
  unfoldable pub next_loop : ℕ → Stream → Stream × Chunk
  unfolding chunk_from pumped_chunk
  next_loop zero s = (s, out_of_fuel)
  next_loop (suc n) s = chunk_from s.buf s.transfer_done s (pumped_chunk (next_loop n))

  -- `ch_http_stream_next_chunk`, on fuel for each call that libcurl makes and the end behind them.
  unfoldable pub next_chunk : Stream → Stream × Chunk
  unfolding next_loop
  next_chunk s = next_loop (suc (suc (length s.curl))) s

  -- `ch_http_stream_begin` from the first `pump` on: an error body is buffered whole.
  unfoldable pub begin_pumped : Stream → Stream
  unfolding pump error_status
  begin_pumped s =
      let first = (pump s).0 in
      if first.streaming && error_status first.http_status
      then (pump (record first { streaming = false })).0
      else first

-- `take_body`: what it hands out.
unfoldable pub take_body : Stream → Option Bytes
take_body s = elim (s.http_status == status_transport_error) [
  | true ↦ elim s.error_msg [
    | none ↦ elim s.buf [ [] ↦ none | c ∷ b ↦ some (c ∷ b) ]
    | some msg ↦ some msg
  ]
  | false ↦ elim s.buf [ [] ↦ none | c ∷ b ↦ some (c ∷ b) ]
]

-- ===== src/Http/Body/Chunks.antt =====
-- `ch_http_stream_next_chunk` of src/http.c: reading to the end.
use pg_clickhouse.Prelude.{ℕ, ◌<◌, Bytes, Bool, true, ◌≡◌}
use pg_clickhouse.Http.{Stream, next_loop}
use pg_clickhouse.Http.Body.{content, calls_left, weight, Delivers}

module _ (has_room : ℕ → Bool) (write_error : Bytes) (room : (n : ℕ) → has_room n ≡ true) where
  abbrev Loops : ℕ → Type 0
  Loops n =
      (s : Stream)
      → s.streaming ≡ true
      → calls_left s < n
      → Delivers (content s) (weight s) (next_loop has_room write_error n s)

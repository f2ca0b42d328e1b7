-- ===== src/Examples/Streaming.antt =====
-- Responses of the two protocols, on scripts of what libcurl and clickhouse-c deliver.
use pg_clickhouse.Prelude.{
  ℕ, ◌<◌, Bytes, codes, Bool, true, false, ◌≡◌, refl, List, [], ◌∷◌, ◌++◌, none, some, arith,
  length, ok, if◌then◌else◌, ◌==◌, map, IsPrefix, contains,
}
use pg_clickhouse.Http.{
  Stream, Perform, performed, finished, broke, write_callback, append, pump, begin_pumped,
  take_body,
}
use pg_clickhouse.Http.Tail.{IsTailed, IsTailed-pump}
use pg_clickhouse.Http.Buffer.{IsRoomy, IsRoomy-write_callback}
use pg_clickhouse.Http.Body.{whole, body, read_chunks}
use pg_clickhouse.Http.Error.{copy_error, copy_error-clean, version_text}
use pg_clickhouse.Http.Exception.{stream_exception, first_exception}
use pg_clickhouse.Http.Exception.Drain.{stream_exception-whole}
use pg_clickhouse.Binary.{
  Packet, data_packet, end_of_stream, other, received, Event, BinaryConnection, BlockLibrary, fresh,
  simple_query, response_free,
}
use pg_clickhouse.Binary.Source.{meaning, read_all}
use pg_clickhouse.Binary.Source.Meaning.{read_all-meaning}
use pg_clickhouse.Binary.Reuse.{rest_after, fetches, rest_after-response_free}
use pg_clickhouse.Binary.Insert.{Begin, Inserts, begin_insert, finalize_insert, release_insert}
use pg_clickhouse.Binary.Insert.Attached.{IsAttached, begin, start, next, release, no_inserts}
use pg_clickhouse.Binary.Insert.Attached.Invariant.{IsAttached-Reachable}
use pg_clickhouse.Binary.Insert.Finish.{finalize_insert-ok}
use pg_clickhouse.Binary.QuerySettings.{
  QuerySetting, user_setting, binary_query_settings, last_value, binary_query_settings-packed,
}
use pg_clickhouse.ServerVersion.{ServerVersion, version_ge}
use pg_clickhouse.KvList.{kv_pair_palloc}
use pg_clickhouse.KvList.Laws.{elems}
use pg_clickhouse.Examples.Backend.{ample}
use pg_clickhouse.Examples.Sending.{two, packed, packs}

-- A transfer that streams and has received nothing.
abbrev streaming : List Perform → Stream
streaming curl = record {
  curl = curl;
  buf = [];
  buf_allocated = 65536;
  streaming = true;
  paused = false;
  transfer_done = false;
  tail = [];
  http_status = 0;
  error_msg = none;
}

abbrev roomy : ℕ → Bool
roomy n = true

abbrev refused : Bytes
refused = codes "Failed writing received data"

-- Two receipts, a call without one, and the end.
abbrev two_chunks : List Perform
two_chunks =
    performed (codes "ab" ∷ []) 200 none
    ∷ performed [] 200 none
    ∷ performed (codes "c" ∷ []) 200 (some finished)
    ∷ []

abbrev breaks_off : List Perform
breaks_off =
    performed (codes "ab" ∷ []) 200 none ∷ performed [] 200 (some (broke (codes "timeout"))) ∷ []

reads_two_chunks : read_chunks roomy refused 9 (streaming two_chunks) ≡ (codes "abc", whole)
unfolding read_chunks
reads_two_chunks = refl

-- A query whose first answer is an error reads the body whole.
error_body :
    take_body (
      begin_pumped roomy refused (
        streaming (
          performed (codes "Co" ∷ []) 500 none
          ∷ performed (codes "de" ∷ []) 500 (some finished)
          ∷ [])))
    ≡ some (codes "Code")
unfolding take_body begin_pumped
error_body = refl

IsRoomy-write_callback_example :
    IsRoomy (append (codes "ab") (streaming []))
    × ((append (codes "ab") (streaming [])).buf ≡ [] ++ codes "ab")
IsRoomy-write_callback_example =
    IsRoomy-write_callback roomy refused (codes "ab") (streaming [])
      (append (codes "ab") (streaming [])) (unfold IsRoomy in omega arith) (omega arith)
      (unfold write_callback in refl)

-- What a server appends to a result that fails late.
abbrev late_error : Bytes
late_error = codes "1\nCode: 241. Out of memory (version 25.3)\n"

abbrev fails_late : List Perform
fails_late = performed (late_error ∷ []) 200 (some finished) ∷ []

abbrev all_of_it : Bytes → ℕ → ℕ
all_of_it s k = k

reports_late_error :
    stream_exception roomy refused all_of_it 4096 (streaming fails_late)
    ≡ some (some (codes "Code: 241. Out of memory"))
unfolding stream_exception
reports_late_error = refl

stream_exception-whole_example :
    stream_exception roomy refused all_of_it 4096 (streaming fails_late)
    ≡ some (some (codes "Code: 241. Out of memory"))
unfolding body stream_exception first_exception
stream_exception-whole_example =
    stream_exception-whole roomy refused (λ n. refl) all_of_it 4096 [] late_error
      (streaming fails_late) refl refl refl (omega arith)

copy_error-clean_example :
    IsPrefix (copy_error all_of_it 4096 late_error) late_error
    × (length (copy_error all_of_it 4096 late_error) < 4096)
    × (contains version_text (copy_error all_of_it 4096 late_error) ≡ false)
copy_error-clean_example =
    copy_error-clean all_of_it 4096 late_error (λ s k. omega arith) (omega arith) (omega arith)

abbrev after_ab : Stream
after_ab = append (codes "ab") (streaming two_chunks)

IsTailed-pump_example : IsTailed [] (pump roomy refused (streaming two_chunks)).0
IsTailed-pump_example =
    IsTailed-pump roomy refused (λ n. refl) [] (streaming two_chunks) (refl, refl)

-- A block is its number of columns; a block of nine is refused.
abbrev counted : BlockLibrary ℕ
counted = record {
  n_columns = λ b. b;
  column_error = λ b i. if b == 9 then some (codes "bad column") else none;
}

abbrev got : Packet ℕ → Event ℕ
got p = record { recv = received p; canceled = false }

abbrev two_blocks : List (Event ℕ)
two_blocks =
    got (data_packet (some 0))
    ∷ got (data_packet (some 2))
    ∷ got other
    ∷ got (data_packet (some 3))
    ∷ got end_of_stream
    ∷ []

abbrev idle : List (Event ℕ) → BinaryConnection ℕ
idle events = record { incoming = events; polls = false; broken = false }

read_all-meaning_example :
    ((read_all counted 6 (fresh (idle two_blocks))).0 ≡ 2 ∷ 3 ∷ [])
    × ((read_all counted 6 (fresh (idle two_blocks))).1.error ≡ none)
unfolding meaning
read_all-meaning_example = read_all-meaning counted 5 two_blocks false false (omega arith)

rest_after-response_free_example :
    rest_after (two_blocks ++ two_blocks)
    ≡ some
        (response_free true (
          fetches counted 1
            (simple_query counted false none (idle (two_blocks ++ two_blocks))))).incoming
rest_after-response_free_example =
    rest_after-response_free counted false (idle (two_blocks ++ two_blocks)) 1 true
      (unfold response_free simple_query fetches in refl)

abbrev all_sent : Begin
all_sent = record { query_sent = none; writer_raised = none; empty_sent = none }

abbrev two_inserts : Inserts ℕ
two_inserts =
    no_inserts
      (idle (got (data_packet (some 2)) ∷ got (data_packet (some 3)) ∷ got end_of_stream ∷ []))

abbrev first_open : Inserts ℕ
first_open = (begin_insert counted two_inserts all_sent).0

IsAttached-Reachable_example :
    IsAttached (release_insert (begin_insert counted first_open all_sent).0 0)
IsAttached-Reachable_example = IsAttached-Reachable counted (
    next
      (next
        (next
          (start (
            idle
              (got (data_packet (some 2)) ∷ got (data_packet (some 3)) ∷ got end_of_stream ∷ [])))
          (begin all_sent))
        (begin all_sent))
      (release 0))

abbrev finalized : Inserts ℕ
finalized = (finalize_insert first_open 0 none).0

finalize_insert-ok_example :
    (rest_after first_open.conn.incoming ≡ some finalized.conn.incoming)
    × ((release_insert finalized 0).conn.broken ≡ first_open.conn.broken)
finalize_insert-ok_example =
    finalize_insert-ok first_open 0 none (unfold begin_insert in refl)
      (unfold begin_insert finalize_insert in refl)

abbrev version_25 : ServerVersion
version_25 = record { major = 25; minor = 3; patch = 0 }

binary_query_settings-packed_example :
    (l : List QuerySetting) × (binary_query_settings version_25 (codes "UTC") (some packed)
      ≡ ok (length l, l))
    × (last_value (codes "session_timezone") l none ≡ (
        if version_ge version_25 23 6
        then some (codes "UTC")
        else last_value (codes "session_timezone") (map user_setting (elems two)) none))
binary_query_settings-packed_example =
    binary_query_settings-packed true ample two kv_pair_palloc version_25 (codes "UTC")
      (omega arith) packs

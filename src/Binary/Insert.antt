-- ===== src/Binary/Insert.antt =====
-- src/binary/insert.c: the INSERTs that are open on a connection of the native protocol.
-- A handle is the number of its allocation.
pub mod Attached
pub mod Finish
use pg_clickhouse.Prelude.{
  ℕ, ◌+◌, Bytes, codes, Bool, true, false, List, [], ◌∷◌, Option, none, some, ◌==◌, ltb,
  if◌then◌else◌, Result, ok, err,
}
use pg_clickhouse.Binary.{
  Packet, data_packet, exception, end_of_stream, other, Recv, failed, received, Event,
  BinaryConnection, text_or, exception_message, BlockLibrary, drain, drain_connection,
}

-- `ch_binary_insert_handle`: `conn` tells that it is not NULL.
pub record Handle : Type 0 where
  pub conn : Bool
  pub finalized : Bool

pub data InsertError : Type 0 where
  could_not_prepare could_not_insert could_not_finish writer_failed : Bytes → InsertError
  connection_closed : InsertError

-- A connection with its list `inserts`, and the handles that were allocated, the next of which has
-- the number `next`.
pub record Inserts (B : Type 0) : Type 0 where
  pub conn : BinaryConnection B
  pub inserts : List ℕ
  pub handles : ℕ → Handle
  pub next : ℕ

unfoldable pub broken_with : {B : Type 0} → List (Event B) → BinaryConnection B → BinaryConnection B
broken_with rest conn = record conn { incoming = rest; broken = true }

-- One round of `recv_initial_block`; `columns` is the number of columns of the block.
unfoldable pub recv_initial :
    {B : Type 0}
    → BlockLibrary B
    → Recv B
    → List (Event B)
    → BinaryConnection B
    → BinaryConnection B × Result InsertError B
    → BinaryConnection B × Result InsertError B
unfolding broken_with exception_message
recv_initial lib (failed msg) rest conn later = (broken_with rest conn, err (could_not_prepare msg))
recv_initial lib (received (exception x)) rest conn later =
    (broken_with rest conn, err (could_not_prepare (exception_message x)))
recv_initial lib (received (data_packet (some b))) rest conn later =
    if ltb 0 (lib.n_columns b) then (record conn { incoming = rest }, ok b) else later
recv_initial lib (received (data_packet none)) rest conn later = later
recv_initial lib (received end_of_stream) rest conn later = later
recv_initial lib (received other) rest conn later = later

unfoldable pub recv_initial_block :
    {B : Type 0}
    → BlockLibrary B
    → List (Event B)
    → BinaryConnection B
    → BinaryConnection B × Result InsertError B
unfolding recv_initial broken_with
recv_initial_block lib [] conn = (broken_with [] conn, err (could_not_prepare []))
recv_initial_block lib (e ∷ events) conn =
    recv_initial lib e.recv events conn (recv_initial_block lib events conn)

-- `drain_aborted_insert`, by what sending an empty block answers.
unfoldable pub drain_aborted_insert :
    {B : Type 0} → Option Bytes → BinaryConnection B → BinaryConnection B
unfolding drain_connection
drain_aborted_insert (some msg) conn = record conn { broken = true }
drain_aborted_insert none conn = (drain_connection conn).0

unfoldable pub set_handle : ℕ → Handle → (ℕ → Handle) → ℕ → Handle
set_handle h new handles i = if h == i then new else handles i

-- What a begin takes from outside: what sending the query answers, what `pgch_writer_new` raises,
-- and what sending the empty block answers, each `none` if it succeeds.
pub record Begin : Type 0 where
  pub query_sent : Option Bytes
  pub writer_raised : Option Bytes
  pub empty_sent : Option Bytes

unfoldable pub open_handle :
    {B : Type 0} → Inserts B → BinaryConnection B → Inserts B × Result InsertError ℕ
unfolding set_handle
open_handle s conn = (
  record {
    conn = conn;
    inserts = s.next ∷ s.inserts;
    handles = set_handle s.next (record { conn = true; finalized = false }) s.handles;
    next = s.next + 1;
  },
  ok s.next,
)

unfoldable pub make_writer :
    {B : Type 0}
    → Inserts B
    → Begin
    → Option Bytes
    → BinaryConnection B × Result InsertError B
    → Inserts B × Result InsertError ℕ
unfolding drain_aborted_insert open_handle
make_writer s b raised (conn, err why) = (record s { conn = conn }, err why)
make_writer s b (some msg) (conn, ok block) =
    (record s { conn = drain_aborted_insert b.empty_sent conn }, err (writer_failed msg))
make_writer s b none (conn, ok block) = open_handle s conn

unfoldable pub begin_sent :
    {B : Type 0}
    → BlockLibrary B
    → Inserts B
    → Begin
    → Option Bytes
    → Inserts B × Result InsertError ℕ
unfolding recv_initial_block make_writer
begin_sent lib s b (some msg) =
    (record s { conn = record s.conn { broken = true } }, err (could_not_prepare msg))
begin_sent lib s b none =
    make_writer s b b.writer_raised (recv_initial_block lib s.conn.incoming s.conn)

-- `ch_binary_begin_insert`.
unfoldable pub begin_insert :
    {B : Type 0} → BlockLibrary B → Inserts B → Begin → Inserts B × Result InsertError ℕ
unfolding begin_sent
begin_insert lib s b = begin_sent lib s b b.query_sent

unfoldable pub remove : ℕ → List ℕ → List ℕ
remove h [] = []
remove h (i ∷ inserts) = let rest = remove h inserts in if i == h then inserts else i ∷ rest

unfoldable pub flush_sent :
    {B : Type 0} → Inserts B → Option Bytes → Inserts B × Result InsertError (Unit {0})
flush_sent s (some msg) =
    (record s { conn = record s.conn { broken = true } }, err (could_not_insert msg))
flush_sent s none = (s, ok tt)

-- `ch_binary_flush_block`, by what sending the block answers.
unfoldable pub flush_block :
    {B : Type 0} → Inserts B → ℕ → Option Bytes → Inserts B × Result InsertError (Unit {0})
unfolding flush_sent
flush_block s h sent = if (s.handles h).conn then flush_sent s sent else (s, err connection_closed)

unfoldable pub finish : Option Bytes → Result InsertError (Unit {0})
finish none = ok tt
finish (some msg) = err (could_not_finish msg)

unfoldable pub finalize_sent :
    {B : Type 0} → Inserts B → Option Bytes → Inserts B × Result InsertError (Unit {0})
unfolding drain_connection finish text_or
finalize_sent s (some msg) = (
  record s { conn = record s.conn { broken = true } },
  err (could_not_finish (text_or (codes "send_data failed") (some msg))),
)
finalize_sent s none =
    let (conn, msg) = drain_connection s.conn in (record s { conn = conn }, finish msg)

unfoldable pub finalize_open :
    {B : Type 0} → Inserts B → ℕ → Option Bytes → Bool → Inserts B × Result InsertError (Unit {0})
unfolding finalize_sent set_handle
finalize_open s h sent false = (s, err connection_closed)
finalize_open s h sent true =
    finalize_sent
      (record s { handles = set_handle h (record { conn = true; finalized = true }) s.handles })
      sent

unfoldable pub finalize_if :
    {B : Type 0} → Inserts B → ℕ → Option Bytes → Bool → Inserts B × Result InsertError (Unit {0})
unfolding finalize_open
finalize_if s h sent true = (s, ok tt)
finalize_if s h sent false = finalize_open s h sent (s.handles h).conn

-- `ch_binary_finalize_insert`, by what sending the empty block answers.
unfoldable pub finalize_insert :
    {B : Type 0} → Inserts B → ℕ → Option Bytes → Inserts B × Result InsertError (Unit {0})
unfolding finalize_if
finalize_insert s h sent = finalize_if s h sent (s.handles h).finalized

-- `ch_binary_release_insert`. The handle is freed with the context that it lives in: what the model
-- keeps of a freed handle is that it has no connection.
unfoldable pub release_insert : {B : Type 0} → Inserts B → ℕ → Inserts B
unfolding remove set_handle
release_insert s h =
    if (s.handles h).conn
    then record {
      conn = record s.conn { broken = if (s.handles h).finalized then s.conn.broken else true };
      inserts = remove h s.inserts;
      handles =
          set_handle h (record { conn = false; finalized = (s.handles h).finalized }) s.handles;
      next = s.next;
    }
    else s

unfoldable pub detach : List ℕ → (ℕ → Handle) → ℕ → Handle
unfolding set_handle
detach [] handles = handles
detach (h ∷ inserts) handles =
    detach inserts
      (set_handle h (record { conn = false; finalized = (handles h).finalized }) handles)

-- `ch_binary_detach_inserts`, when the connection is closed.
unfoldable pub detach_inserts : {B : Type 0} → Inserts B → Inserts B
unfolding detach
detach_inserts s = record s { inserts = []; handles = detach s.inserts s.handles }

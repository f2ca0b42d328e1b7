-- ===== src/Binary.antt =====
-- src/binary/binary.c and src/binary/select.c: the responses of the native protocol.
-- The client of clickhouse-c is what it delivers: a list of receptions, behind which it fails.
pub mod Source
pub mod Reuse
pub mod Insert
pub mod QuerySettings
pub mod Params
use pg_clickhouse.Prelude.{
  ℕ, zero, suc, Bytes, codes, Bool, true, false, not, ◌&&◌, List, [], ◌∷◌, Option, none, some, ltb,
  if◌then◌else◌, length,
}

-- `chc_exception`: the texts that are read of it.
pub record ChcException : Type 0 where
  pub display_text : Option Bytes
  pub name : Option Bytes

-- `chc_packet`, for blocks of type `B`.
pub data Packet (B : Type 0) : Type 0 where
  data_packet : Option B → Packet B
  exception : Option ChcException → Packet B
  end_of_stream other : Packet B

-- What `chc_client_recv_packet` answers: an error message or a packet.
pub data Recv (B : Type 0) : Type 0 where
  failed : Bytes → Recv B
  received : Packet B → Recv B

-- One reception, and what `check_cancel_fn` answers behind it.
pub record Event (B : Type 0) : Type 0 where
  pub recv : Recv B
  pub canceled : Bool

-- `ch_binary_connection_t`; `polls` tells that `check_cancel_fn` is not NULL.
pub record BinaryConnection (B : Type 0) : Type 0 where
  pub incoming : List (Event B)
  pub polls : Bool
  pub broken : Bool

-- `ch_binary_response_t`.
pub record Response (B : Type 0) : Type 0 where
  pub staged : Option B
  pub eos : Bool
  pub error : Option Bytes
  pub conn : BinaryConnection B

unfoldable pub text_or : Bytes → Option Bytes → Bytes
text_or fallback none = fallback
text_or fallback (some []) = fallback
text_or fallback (some (c ∷ s)) = c ∷ s

unfoldable pub exception_message : Option ChcException → Bytes
unfolding text_or
exception_message none = codes "server exception"
exception_message (some e) = text_or (text_or (codes "server exception") e.name) e.display_text

-- `resp_set_error`: the first error stays.
unfoldable pub set_error : Bytes → Option Bytes → Option Bytes
unfolding text_or
set_error msg none = some (text_or (codes "?") (some msg))
set_error msg (some e) = some e

-- The first of `n` columns from `i` on that `chc_column_validate` refuses.
unfoldable pub validate_from : (ℕ → Option Bytes) → ℕ → ℕ → Option Bytes
validate_from column_error i zero = none
validate_from column_error i (suc n) =
    let later = validate_from column_error (suc i) n in
    elim (column_error i) [ none ↦ later | some msg ↦ some msg ]

-- What the client library tells of a block.
pub record BlockLibrary (B : Type 0) : Type 0 where
  pub n_columns : B → ℕ
  pub column_error : B → ℕ → Option Bytes

-- The next reception, and what comes behind it.
unfoldable pub receive : {B : Type 0} → List (Event B) → Event B × List (Event B)
receive [] = (record { recv = failed []; canceled = false }, [])
receive (e ∷ events) = (e, events)

unfoldable pub validate : {B : Type 0} → BlockLibrary B → B → Option Bytes
unfolding validate_from
validate lib b = validate_from (lib.column_error b) 0 (lib.n_columns b)

-- A transport or protocol error, behind which nothing more is read.
unfoldable pub break_off : {B : Type 0} → Bytes → Response B → Response B
unfolding set_error
break_off msg r = record {
  staged = r.staged;
  eos = true;
  error = set_error msg r.error;
  conn = record r.conn { broken = true };
}

-- A block with columns becomes the staged one if its columns are valid.
unfoldable pub stage : {B : Type 0} → B → Option Bytes → Response B → Response B
unfolding break_off
stage b (some msg) r = break_off msg r
stage b none r = record r { staged = some b }

-- The test on a block of a data packet.
unfoldable pub take_block : {B : Type 0} → BlockLibrary B → B → Option B → Response B → Response B
unfolding stage validate
take_block lib b (some old) r = r
take_block lib b none r = if ltb 0 (lib.n_columns b) then stage b (validate lib b) r else r

unfoldable pub take_packet : {B : Type 0} → BlockLibrary B → Packet B → Response B → Response B
unfolding take_block break_off exception_message
take_packet lib (data_packet none) r = r
take_packet lib (data_packet (some b)) r = take_block lib b r.staged r
take_packet lib (exception e) r = break_off (exception_message e) r
take_packet lib end_of_stream r = record r { eos = true }
take_packet lib other r = r

-- The cancel check behind a reception.
unfoldable pub poll : {B : Type 0} → Bool → Response B → Response B
unfolding set_error
poll true r = record r { error = set_error (codes "query was canceled") r.error }
poll false r = r

unfoldable pub take_recv : {B : Type 0} → BlockLibrary B → Recv B → Bool → Response B → Response B
unfolding break_off poll take_packet
take_recv lib (failed msg) canceled r = break_off msg r
take_recv lib (received p) canceled r = take_packet lib p (poll (r.conn.polls && canceled) r)

-- `pump_one`.
unfoldable pub pump_one : {B : Type 0} → BlockLibrary B → Response B → Response B
unfolding receive take_recv
pump_one lib r =
    let (e, rest) = receive r.conn.incoming in
    take_recv lib e.recv e.canceled (record r { conn = record r.conn { incoming = rest } })

unfoldable pub is_none : {A : Type 0} → Option A → Bool
is_none none = true
is_none (some a) = false

-- The condition of the loops that pump.
unfoldable pub is_waiting : {B : Type 0} → Response B → Bool
unfolding is_none
is_waiting r = is_none r.staged && (not r.eos && is_none r.error)

unfoldable pub pump_loop : {B : Type 0} → BlockLibrary B → ℕ → Response B → Response B
unfolding is_waiting pump_one
pump_loop lib zero r = r
pump_loop lib (suc n) r =
    let rest = pump_loop lib n (pump_one lib r) in if is_waiting r then rest else r

-- The loop, on fuel for every reception and the failure behind them.
unfoldable pub pump_until : {B : Type 0} → BlockLibrary B → Response B → Response B
unfolding pump_loop
pump_until lib r = pump_loop lib (suc (length r.conn.incoming)) r

-- `ch_binary_response_fetch_next_block`.
unfoldable pub fetch_next_block : {B : Type 0} → BlockLibrary B → Response B → Option B × Response B
unfolding pump_until
fetch_next_block lib r =
    let pumped = pump_until lib r in (pumped.staged, record pumped { staged = none })

-- The response before anything is read.
abbrev pub fresh : {B : Type 0} → BinaryConnection B → Response B
fresh conn = record { staged = none; eos = false; error = none; conn = conn }

-- `ch_binary_simple_query` from the sending of the query on, which may fail with a message.
unfoldable pub simple_query :
    {B : Type 0} → BlockLibrary B → Bool → Option Bytes → BinaryConnection B → Response B
unfolding break_off pump_until
simple_query lib check_cancel (some msg) conn =
    break_off msg (fresh (record conn { polls = check_cancel }))
simple_query lib check_cancel none conn =
    pump_until lib (fresh (record conn { polls = check_cancel }))

-- One round of `ch_binary_drain`, by what it receives.
unfoldable pub drain_recv :
    {B : Type 0}
    → Recv B
    → List (Event B)
    → List (Event B) × Bool × Option Bytes
    → List (Event B) × Bool × Option Bytes
unfolding text_or exception_message
drain_recv (failed msg) events later =
    (events, true, some (text_or (codes "recv_packet failed") (some msg)))
drain_recv (received (data_packet b)) events later = later
drain_recv (received (exception x)) events later = (events, true, some (exception_message x))
drain_recv (received end_of_stream) events later = (events, false, none)
drain_recv (received other) events later = later

-- What `ch_binary_drain` meets: the packets behind the end, whether the connection broke, and the
-- message it stores.
unfoldable pub drain : {B : Type 0} → List (Event B) → List (Event B) × Bool × Option Bytes
unfolding drain_recv
drain [] = ([], true, some (codes "recv_packet failed"))
drain (e ∷ events) = drain_recv e.recv events (drain events)

unfoldable pub drain_connection :
    {B : Type 0} → BinaryConnection B → BinaryConnection B × Option Bytes
unfolding drain
drain_connection conn =
    let (rest, broke, msg) = drain conn.incoming in
    (record conn { incoming = rest; broken = if broke then true else conn.broken }, msg)

-- The rest of `drain_until_eos`, by `eos` and by whether the server took the cancel request.
unfoldable pub drain_rest : {B : Type 0} → Bool → Bool → Response B → Response B
unfolding drain_connection
drain_rest true cancel_sent r = r
drain_rest false true r = record r {
  eos = true;
  conn = (drain_connection (record r.conn { polls = false })).0;
}
drain_rest false false r = record r { eos = true; conn = record r.conn { broken = true } }

unfoldable pub drain_until_eos : {B : Type 0} → Bool → Response B → Response B
unfolding drain_rest
drain_until_eos cancel_sent r = drain_rest r.eos cancel_sent r

-- `ch_binary_response_free`: what is left is the connection. An error that the
-- drain raises, which marks the connection as broken, is not modelled.
unfoldable pub response_free : {B : Type 0} → Bool → Response B → BinaryConnection B
unfolding drain_until_eos
response_free cancel_sent r =
    let ended = drain_until_eos cancel_sent r in record ended.conn { polls = false }

-- ===== src/Binary/Source.antt =====
-- The response of src/binary/select.c as a source of blocks.
pub mod Rounds
pub mod Meaning
use pg_clickhouse.Prelude.{
  ℕ, zero, suc, ◌≤◌, ◌≡◌, refl, ap, sym, ◌∙◌, Bytes, codes, Bool, true, false, ◌&&◌, List, [], ◌∷◌,
  Option, none, some, ltb, if◌then◌else◌, length, arith, inl, inr, Bool-cases, Option-cases,
}
use pg_clickhouse.Binary.{
  Packet, data_packet, exception, end_of_stream, other, Recv, failed, received, Event,
  BinaryConnection, Response, text_or, exception_message, set_error, BlockLibrary, receive,
  validate, break_off, stage, take_block, take_packet, poll, take_recv, pump_one, is_none,
  is_waiting, pump_loop, pump_until, fetch_next_block, fresh,
}

unfoldable pub add_found :
    {B : Type 0} → Option B → Response B → List B × Response B → List B × Response B
add_found none after later = ([], after)
add_found (some b) after (more, last) = (b ∷ more, last)

-- Reading a response to its end: the blocks, and the response behind them.
unfoldable pub read_all : {B : Type 0} → BlockLibrary B → ℕ → Response B → List B × Response B
unfolding fetch_next_block add_found
read_all lib zero r = ([], r)
read_all lib (suc n) r =
    let (found, after) = fetch_next_block lib r in add_found found after (read_all lib n after)

-- What a server's packets mean: the blocks of the result, and the error that ends it, if one does.
unfoldable pub said : Bytes → Option Bytes
unfolding text_or
said msg = some (text_or (codes "?") (some msg))

abbrev pub canceled_text : Bytes
canceled_text = codes "query was canceled"

unfoldable pub before_block : {B : Type 0} → B → List B × Option Bytes → List B × Option Bytes
before_block b (blocks, why) = (b ∷ blocks, why)

-- A packet with no cancel request behind it, by what the later ones mean.
unfoldable pub meaning_of :
    {B : Type 0} → BlockLibrary B → Packet B → List B × Option Bytes → List B × Option Bytes
unfolding said before_block validate exception_message
meaning_of lib (data_packet none) later = later
meaning_of lib (data_packet (some b)) later =
    if ltb 0 (lib.n_columns b)
    then (elim (validate lib b) [ none ↦ before_block b later | some msg ↦ ([], said msg) ])
    else later
meaning_of lib (exception e) later = ([], said (exception_message e))
meaning_of lib end_of_stream later = ([], none)
meaning_of lib other later = later

-- A packet whose reception was canceled: a valid block of it still counts.
unfoldable pub last_blocks : {B : Type 0} → BlockLibrary B → Packet B → List B
unfolding validate
last_blocks lib (data_packet none) = []
last_blocks lib (data_packet (some b)) =
    if ltb 0 (lib.n_columns b)
    then (elim (validate lib b) [ none ↦ b ∷ [] | some msg ↦ [] ])
    else []
last_blocks lib (exception e) = []
last_blocks lib end_of_stream = []
last_blocks lib other = []

unfoldable pub meaning_recv :
    {B : Type 0} → BlockLibrary B → Recv B → Bool → List B × Option Bytes → List B × Option Bytes
unfolding said meaning_of last_blocks
meaning_recv lib (failed msg) canceled later = ([], said msg)
meaning_recv lib (received p) canceled later =
    if canceled then (last_blocks lib p, said canceled_text) else meaning_of lib p later

unfoldable pub meaning :
    {B : Type 0} → BlockLibrary B → Bool → List (Event B) → List B × Option Bytes
unfolding said meaning_recv
meaning lib polls [] = ([], said [])
meaning lib polls (e ∷ events) =
    meaning_recv lib e.recv (polls && e.canceled) (meaning lib polls events)

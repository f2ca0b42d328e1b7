-- ===== src/Binary/Insert/Attached.antt =====
-- The list of open INSERTs of src/binary/insert.c against the handles.
pub mod Steps
pub mod Invariant
use pg_clickhouse.Prelude.{
  ℕ, ◌+◌, ◌-◌, ◌≤◌, ◌≡◌, refl, ap, subst, ◌∙◌, sym, Bytes, Bool, true, false, List, [], ◌∷◌, Option,
  none, some, ◌==◌, ==_iff, if◌then◌else◌, Result, ok, err, arith, inl, inr, Bool-cases,
}
use pg_clickhouse.Binary.{BinaryConnection, BlockLibrary, drain_connection}
use pg_clickhouse.Binary.Insert.{
  Handle, InsertError, Inserts, Begin, recv_initial_block, drain_aborted_insert, set_handle,
  open_handle, make_writer, begin_sent, begin_insert, remove, flush_sent, flush_block,
  finalize_sent, finalize_open, finalize_if, finalize_insert, release_insert, detach,
  detach_inserts,
}

unfoldable pub occurs : ℕ → List ℕ → ℕ
occurs h [] = 0
occurs h (i ∷ inserts) = (if i == h then 1 else 0) + occurs h inserts

unfoldable pub attached : Handle → ℕ
attached h = if h.conn then 1 else 0

-- The list of the connection holds each handle that has the connection, once, and no other; the
-- next handle has none yet.
pub record IsAttached {B : Type 0} (s : Inserts B) : Type 0 where
  pub listed : (h : ℕ) → occurs h s.inserts ≡ attached (s.handles h)
  pub unborn : (h : ℕ) → s.next ≤ h → attached (s.handles h) ≡ 0

-- What one transition can do to the INSERTs of a connection, in any order.
pub data Step {B : Type 0} (lib : BlockLibrary B) (s : Inserts B) : Inserts B → Type 0 where
  begin : (b : Begin) → Step lib s (begin_insert lib s b).0
  flush : (h : ℕ) (sent : Option Bytes) → Step lib s (flush_block s h sent).0
  finalize : (h : ℕ) (sent : Option Bytes) → Step lib s (finalize_insert s h sent).0
  release : (h : ℕ) → Step lib s (release_insert s h)
  close : Step lib s (detach_inserts s)

abbrev pub no_inserts : {B : Type 0} → BinaryConnection B → Inserts B
no_inserts conn = record {
  conn = conn;
  inserts = [];
  handles = λ h. record { conn = false; finalized = false };
  next = 0;
}

pub data Reachable {B : Type 0} (lib : BlockLibrary B) : Inserts B → Type 0 where
  start : (conn : BinaryConnection B) → Reachable lib (no_inserts conn)
  next : {s t : Inserts B} → Reachable lib s → Step lib s t → Reachable lib t

-- ===== src/Binary/Insert/Finish.antt =====
-- When an INSERT of src/binary/insert.c ends without an error.
use pg_clickhouse.Prelude.{
  ℕ, ◌≡◌, refl, sym, ==_iff, Bytes, Bool, true, false, List, [], ◌∷◌, Option, none, some, ◌∙◌, ap,
  Result, ok, err,
}
use pg_clickhouse.Binary.{
  data_packet, exception, end_of_stream, other, Recv, failed, received, Event, drain_recv, drain,
  drain_connection,
}
use pg_clickhouse.Binary.Reuse.{rest_after, drain-rest}
use pg_clickhouse.Binary.Insert.{
  InsertError, Inserts, set_handle, finish, finalize_sent, finalize_open, finalize_if,
  finalize_insert, release_insert,
}

-- A drain that stores no message met the end of the stream.
not_ok : {why : InsertError} → ◌≡◌ {A = Result InsertError (Unit {0})} (err why) (ok tt) → ⊥
not_ok e = cc

quiet_recv :
    {B : Type 0} (x : Recv B) (events : List (Event B))
    (later : List (Event B) × Bool × Option Bytes)
    → (later.2 ≡ none → later.1 ≡ false)
    → (drain_recv x events later).2 ≡ none
    → (drain_recv x events later).1 ≡ false
unfolding drain_recv
quiet_recv (failed msg) events later h e = cc
quiet_recv (received (data_packet b)) events later h e = h e
quiet_recv (received (exception x)) events later h e = cc
quiet_recv (received end_of_stream) events later h e = refl
quiet_recv (received other) events later h e = h e

quiet_drain :
    {B : Type 0} (events : List (Event B)) → (drain events).2 ≡ none → (drain events).1 ≡ false
unfolding drain
quiet_drain [] e = cc
quiet_drain (x ∷ events) e = quiet_recv x.recv events (drain events) (quiet_drain events) e

finish-ok : (msg : Option Bytes) → finish msg ≡ ok tt → msg ≡ none
unfolding finish
finish-ok none h = refl
finish-ok (some m) h = cc

-- The two parts of a finalization that ends well.
finalize_sent-ok :
    {B : Type 0} (s : Inserts B) (sent : Option Bytes) {t : Inserts B}
    → finalize_sent s sent ≡ (t, ok tt)
    → (rest_after s.conn.incoming ≡ some t.conn.incoming)
      × (t.conn.broken ≡ s.conn.broken)
      × ((i : ℕ) → t.handles i ≡ s.handles i)
unfolding finalize_sent drain_connection
finalize_sent-ok {B} s (some msg) {t} e = absurd (not_ok (ap (λ p. p.1) e))
finalize_sent-ok {B} s none {t} e =
    let silent = finish-ok (drain s.conn.incoming).2 (ap (λ p. p.1) e) in
    let quiet = quiet_drain s.conn.incoming silent in
    let same = ap (λ (p : Inserts B × Result InsertError (Unit {0})). p.0) e in
    (
      drain-rest s.conn.incoming quiet ∙ ap (λ (u : Inserts B). some u.conn.incoming) same,
      sym (ap (λ (u : Inserts B). u.conn.broken) same) ∙ rw quiet refl,
      λ i. sym (ap (λ (u : Inserts B). u.handles i) same),
    )

finalize_open-ok :
    {B : Type 0} (s : Inserts B) (h : ℕ) (sent : Option Bytes) (conn : Bool) {t : Inserts B}
    → finalize_open s h sent conn ≡ (t, ok tt)
    → (rest_after s.conn.incoming ≡ some t.conn.incoming)
      × (t.conn.broken ≡ s.conn.broken)
      × (t.handles h ≡ record { conn = true; finalized = true })
unfolding finalize_open
finalize_open-ok s h sent false e = absurd (not_ok (ap (λ p. p.1) e))
finalize_open-ok s h sent true e =
    let (rest, broken, kept) =
      finalize_sent-ok
        (record s { handles = set_handle h (record { conn = true; finalized = true }) s.handles })
        sent e in
    (rest, broken, kept h ∙ unfold set_handle in rw ((==_iff h h).1 refl) refl)

finalize_if-open :
    {B : Type 0} (s : Inserts B) (h : ℕ) (sent : Option Bytes) (f : Bool)
    → f ≡ false
    → finalize_if s h sent f ≡ finalize_open s h sent (s.handles h).conn
unfolding finalize_if
finalize_if-open s h sent true e = cc
finalize_if-open s h sent false e = refl

-- An INSERT that is finished without an error was ended by the server itself: what the connection
-- receives next stands right behind the end of the stream, and the release of the handle leaves the
-- connection as usable as it was before.
pub finalize_insert-ok :
    {B : Type 0} (s : Inserts B) (h : ℕ) (sent : Option Bytes) {t : Inserts B}
    → (s.handles h).finalized ≡ false
    → finalize_insert s h sent ≡ (t, ok tt)
    → (rest_after s.conn.incoming ≡ some t.conn.incoming)
      × ((release_insert t h).conn.broken ≡ s.conn.broken)
unfolding finalize_insert
finalize_insert-ok s h sent {t} going e =
    let opened : finalize_open s h sent (s.handles h).conn ≡ (t, ok tt) =
      sym (finalize_if-open s h sent (s.handles h).finalized going) ∙ e in
    let (rest, broken, handle) = finalize_open-ok s h sent (s.handles h).conn opened in
    (rest, unfold release_insert in rw handle broken)

-- ===== src/Binary/Reuse.antt =====
-- What src/binary/select.c leaves of a connection for the next query.
use pg_clickhouse.Prelude.{
  ℕ, zero, suc, ◌≡◌, refl, sym, ◌∙◌, Bytes, Bool, true, false, not, ◌&&◌, List, [], ◌∷◌, Option,
  none, some, ltb, if◌then◌else◌, length, inl, inr, Bool-cases, and_true, not-true,
}
use pg_clickhouse.Binary.{
  exception_message, Packet, data_packet, exception, end_of_stream, other, Recv, failed, received,
  Event, BinaryConnection, Response, BlockLibrary, receive, validate, break_off, stage, take_block,
  take_packet, poll, take_recv, pump_one, is_none, is_waiting, pump_loop, pump_until,
  fetch_next_block, fresh, simple_query, drain_recv, drain, drain_connection, drain_rest,
  drain_until_eos, response_free,
}

unfoldable pub rest_recv :
    {B : Type 0} → Recv B → List (Event B) → Option (List (Event B)) → Option (List (Event B))
rest_recv (failed msg) events later = none
rest_recv (received (data_packet b)) events later = later
rest_recv (received (exception x)) events later = none
rest_recv (received end_of_stream) events later = some events
rest_recv (received other) events later = later

-- What comes behind the end of a result, if the server ends it itself.
unfoldable pub rest_after : {B : Type 0} → List (Event B) → Option (List (Event B))
unfolding rest_recv
rest_after [] = none
rest_after (e ∷ events) = rest_recv e.recv events (rest_after events)

unfoldable behind : {B : Type 0} → Bool → List (Event B) → Option (List (Event B))
behind true events = some events
behind false events = rest_after events

drain_recv-rest :
    {B : Type 0} (x : Recv B) (events : List (Event B))
    (later : List (Event B) × Bool × Option Bytes) (rest : Option (List (Event B)))
    → (later.1 ≡ false → rest ≡ some later.0)
    → (drain_recv x events later).1 ≡ false
    → rest_recv x events rest ≡ some (drain_recv x events later).0
unfolding drain_recv rest_recv
drain_recv-rest (failed msg) events later rest h e = cc
drain_recv-rest (received (data_packet b)) events later rest h e = h e
drain_recv-rest (received (exception x)) events later rest h e = cc
drain_recv-rest (received end_of_stream) events later rest h e = refl
drain_recv-rest (received other) events later rest h e = h e

pub drain-rest :
    {B : Type 0} (events : List (Event B))
    → (drain events).1 ≡ false
    → rest_after events ≡ some (drain events).0
unfolding drain rest_after
drain-rest [] h = cc
drain-rest (e ∷ events) h =
    drain_recv-rest e.recv events (drain events) (rest_after events) (drain-rest events) h

if_false : (b c : Bool) → (if b then true else c) ≡ false → (b ≡ false) × (c ≡ false)
if_false true c h = cc
if_false false c h = (refl, h)

module _ {B : Type 0} (lib : BlockLibrary B) where
  -- A connection that is not broken stands in the result that it started, or right behind it.
  abbrev IsTidy : Option (List (Event B)) → Response B → Type 0
  IsTidy goal r = r.conn.broken ≡ false → behind r.eos r.conn.incoming ≡ goal

  IsTidy-break_off :
      (goal : Option (List (Event B))) (msg : Bytes) (r : Response B)
      → IsTidy goal (break_off msg r)
  unfolding break_off
  IsTidy-break_off goal msg r = λ h. cc

  IsTidy-stage :
      (goal : Option (List (Event B))) (b : B) (o : Option Bytes) (r : Response B)
      → IsTidy goal r
      → IsTidy goal (stage b o r)
  unfolding stage
  IsTidy-stage goal b (some msg) r h = IsTidy-break_off goal msg r
  IsTidy-stage goal b none r h = h

  IsTidy-take_block :
      (goal : Option (List (Event B))) (b : B) (o : Option B) (r : Response B)
      → IsTidy goal r
      → IsTidy goal (take_block lib b o r)
  unfolding take_block
  IsTidy-take_block goal b (some old) r h = h
  IsTidy-take_block goal b none r h = elim (Bool-cases (ltb 0 (lib.n_columns b))) [
    | inl y ↦ rw y (IsTidy-stage goal b (validate lib b) r h)
    | inr n ↦ rw n h
  ]

  -- The reception `p`, behind which the packets of `r` come.
  IsTidy-take_packet :
      (goal : Option (List (Event B))) (p : Packet B) (r : Response B)
      → r.eos ≡ false
      → (r.conn.broken ≡ false
          → rest_recv (received p) r.conn.incoming (rest_after r.conn.incoming) ≡ goal)
      → IsTidy goal (take_packet lib p r)
  unfolding take_packet rest_recv behind
  IsTidy-take_packet goal (data_packet none) r going h = λ fine. rw going (h fine)
  IsTidy-take_packet goal (data_packet (some b)) r going h =
      IsTidy-take_block goal b r.staged r (λ fine. rw going (h fine))
  IsTidy-take_packet goal (exception x) r going h = IsTidy-break_off goal (exception_message x) r
  IsTidy-take_packet goal end_of_stream r going h = h
  IsTidy-take_packet goal other r going h = λ fine. rw going (h fine)

  IsTidy-poll :
      (goal : Option (List (Event B))) (p : Packet B) (b : Bool) (r : Response B)
      → r.eos ≡ false
      → (r.conn.broken ≡ false
          → rest_recv (received p) r.conn.incoming (rest_after r.conn.incoming) ≡ goal)
      → IsTidy goal (take_packet lib p (poll b r))
  unfolding poll
  IsTidy-poll goal p true r going h = IsTidy-take_packet goal p (poll true r) going h
  IsTidy-poll goal p false r going h = IsTidy-take_packet goal p r going h

  IsTidy-take_recv :
      (goal : Option (List (Event B))) (x : Recv B) (canceled : Bool) (r : Response B)
      → r.eos ≡ false
      → (r.conn.broken ≡ false → rest_recv x r.conn.incoming (rest_after r.conn.incoming) ≡ goal)
      → IsTidy goal (take_recv lib x canceled r)
  unfolding take_recv
  IsTidy-take_recv goal (failed msg) canceled r going h = IsTidy-break_off goal msg r
  IsTidy-take_recv goal (received p) canceled r going h =
      IsTidy-poll goal p (r.conn.polls && canceled) r going h

  IsTidy-receive :
      (goal : Option (List (Event B))) (events : List (Event B)) (r : Response B)
      → r.eos ≡ false
      → (r.conn.broken ≡ false → rest_after events ≡ goal)
      → IsTidy goal (
          take_recv lib
            (receive events).0.recv
            (receive events).0.canceled
            (record r { conn = record r.conn { incoming = (receive events).1 } }))
  unfolding receive rest_after
  IsTidy-receive goal [] r going h =
      IsTidy-take_recv goal (failed []) false _ going (unfold rest_recv in h)
  IsTidy-receive goal (e ∷ events) r going h =
      IsTidy-take_recv goal e.recv e.canceled
        (record r { conn = record r.conn { incoming = events } }) going h

  IsTidy-pump_one :
      (goal : Option (List (Event B))) (r : Response B)
      → r.eos ≡ false
      → IsTidy goal r
      → IsTidy goal (pump_one lib r)
  unfolding pump_one behind
  IsTidy-pump_one goal r going h =
      IsTidy-receive goal r.conn.incoming r going (λ fine. rw going at (h fine))

  waiting-eos : (r : Response B) → is_waiting r ≡ true → r.eos ≡ false
  unfolding is_waiting
  waiting-eos r h =
      let rest = (and_true (is_none r.staged) (not r.eos && is_none r.error) h).1 in
      not-true r.eos (and_true (not r.eos) (is_none r.error) rest).0

  IsTidy-pump_loop :
      (goal : Option (List (Event B))) (n : ℕ) (r : Response B)
      → IsTidy goal r
      → IsTidy goal (pump_loop lib n r)
  unfolding pump_loop
  IsTidy-pump_loop goal zero r h = h
  IsTidy-pump_loop goal (suc n) r h = elim (Bool-cases (is_waiting r)) [
    | inl y ↦
        rw y (IsTidy-pump_loop goal n (pump_one lib r) (IsTidy-pump_one goal r (waiting-eos r y) h))
    | inr no_wait ↦ rw no_wait h
  ]

  IsTidy-fetch :
      (goal : Option (List (Event B))) (r : Response B)
      → IsTidy goal r
      → IsTidy goal (fetch_next_block lib r).1
  unfolding fetch_next_block pump_until
  IsTidy-fetch goal r h = IsTidy-pump_loop goal (suc (length r.conn.incoming)) r h

  drain_rest-rest :
      (goal : Option (List (Event B))) (eos cancel_sent : Bool) (r : Response B)
      → (r.conn.broken ≡ false → behind eos r.conn.incoming ≡ goal)
      → (drain_rest eos cancel_sent r).conn.broken ≡ false
      → goal ≡ some (drain_rest eos cancel_sent r).conn.incoming
  unfolding drain_rest behind
  drain_rest-rest goal true cancel_sent r h fine = sym (h fine)
  drain_rest-rest goal false true r h fine =
      let (quiet, whole) =
        if_false (drain r.conn.incoming).1 r.conn.broken (unfold drain_connection in fine) in
      sym (h whole) ∙ drain-rest r.conn.incoming quiet ∙ unfold drain_connection in refl
  drain_rest-rest goal false false r h fine = cc

  IsTidy-free :
      (goal : Option (List (Event B))) (cancel_sent : Bool) (r : Response B)
      → IsTidy goal r
      → (response_free cancel_sent r).broken ≡ false
      → goal ≡ some (response_free cancel_sent r).incoming
  unfolding response_free drain_until_eos
  IsTidy-free goal cancel_sent r h fine = drain_rest-rest goal r.eos cancel_sent r h fine

  -- Reading some blocks of a response, as often as the caller likes.
  unfoldable pub fetches : ℕ → Response B → Response B
  unfolding fetch_next_block
  fetches zero r = r
  fetches (suc n) r = fetches n (fetch_next_block lib r).1

  IsTidy-fetches :
      (goal : Option (List (Event B))) (n : ℕ) (r : Response B)
      → IsTidy goal r
      → IsTidy goal (fetches n r)
  unfolding fetches
  IsTidy-fetches goal zero r h = h
  IsTidy-fetches goal (suc n) r h =
      IsTidy-fetches goal n (fetch_next_block lib r).1 (IsTidy-fetch goal r h)

  -- However many blocks of a result are read, and whether or not the server takes the request to
  -- cancel the rest: a connection that is not marked as broken when the response is freed stands right
  -- behind the end of that result, so the next query on it reads none of its packets.
  pub rest_after-response_free :
      (check_cancel : Bool) (conn : BinaryConnection B) (n : ℕ) (cancel_sent : Bool)
      → (response_free cancel_sent (fetches n (simple_query lib check_cancel none conn))).broken
        ≡ false
      → rest_after conn.incoming
        ≡ some
            (response_free cancel_sent
              (fetches n (simple_query lib check_cancel none conn))).incoming
  rest_after-response_free check_cancel conn n cancel_sent fine =
      IsTidy-free (rest_after conn.incoming) cancel_sent
        (fetches n (simple_query lib check_cancel none conn))
        (IsTidy-fetches (rest_after conn.incoming) n (simple_query lib check_cancel none conn) (
          unfold simple_query pump_until in
          IsTidy-pump_loop (rest_after conn.incoming) (suc (length conn.incoming))
            (fresh (record conn { polls = check_cancel })) (λ h. unfold behind in refl)))
        fine

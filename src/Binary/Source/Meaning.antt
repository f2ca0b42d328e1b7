-- ===== src/Binary/Source/Meaning.antt =====
-- A response of src/binary/select.c against what its packets mean.
use pg_clickhouse.Prelude.{
  ℕ, zero, suc, ◌≤◌, ◌≡◌, refl, ap, ◌∙◌, Bytes, Bool, true, false, ◌&&◌, List, [], ◌∷◌, Option,
  none, some, ltb, length, arith, inl, inr, Bool-cases, Option-cases,
}
use pg_clickhouse.Binary.{
  Packet, data_packet, exception, end_of_stream, other, Recv, failed, received, Event, Response,
  set_error, BlockLibrary, receive, validate, break_off, stage, take_block, take_packet, poll,
  take_recv, pump_one, is_none, is_waiting, pump_loop, pump_until, fetch_next_block, fresh,
}
use pg_clickhouse.Binary.Source.{
  add_found, read_all, said, canceled_text, before_block, meaning_of, last_blocks, meaning_recv,
  meaning,
}
use pg_clickhouse.Binary.Source.Rounds.{
  response, connection, read_all_end, Reads, Reads-wait, Reads-end, Reads-block,
}

module _ {B : Type 0} (lib : BlockLibrary B) where
  -- What later receptions read, for any fuel that is enough.
  abbrev Later : ℕ → List (Event B) → Bool → Type 0
  Later n events polls =
      (k : ℕ) (broken : Bool)
      → n ≤ k
      → Reads lib (suc k) (fresh (connection events polls broken)) (meaning lib polls events)

  module _ (n : ℕ) (events : List (Event B)) (polls broken : Bool)
      (later : Later n events polls) where
    abbrev from : Recv B → Bool → Response B
    from x canceled =
        fresh (connection (record { recv = x; canceled = canceled } ∷ events) polls broken)

    Reads-quiet :
        (p : Packet B) (canceled : Bool)
        → (polls && canceled) ≡ false
        → Reads lib
            (suc (suc n))
            (from (received p) canceled)
            (meaning_of lib p (meaning lib polls events))
    unfolding meaning_of
    Reads-quiet (data_packet none) canceled quiet =
        Reads-wait lib (suc n) _ events polls broken broken _
          (unfold pump_one receive take_recv poll take_packet in rw quiet refl)
          (later (suc n) broken (omega arith))
    Reads-quiet (data_packet (some b)) canceled quiet =
        elim (Bool-cases (ltb 0 (lib.n_columns b))) [
          | inr empty ↦ rw empty (
              Reads-wait lib (suc n) _ events polls broken broken _
                (unfold pump_one receive take_recv poll take_packet take_block stage break_off in
                  rw (quiet, empty) refl)
                (later (suc n) broken (omega arith)))
          | inl columns ↦ rw columns (elim (Option-cases (validate lib b)) [
            | inl fine ↦ rw fine (
                Reads-block lib (suc n) _ events polls broken b none
                  (connection events polls broken) (meaning lib polls events)
                  (unfold pump_one receive take_recv poll take_packet take_block stage break_off in
                    rw (quiet, columns, fine) refl)
                  refl (later n broken (omega arith)))
            | inr (msg, bad) ↦ rw bad (
                Reads-end lib (suc n) _ events polls broken true (said msg)
                  (connection events polls true)
                  (unfold pump_one receive take_recv poll take_packet take_block stage break_off in
                    rw (quiet, columns, bad) (unfold set_error said in refl))
                  refl (unfold is_waiting is_none in refl))
          ])
        ]
    Reads-quiet (exception x) canceled quiet =
        Reads-end lib (suc n) _ events polls broken true _ (connection events polls true)
          (unfold pump_one receive take_recv poll take_packet break_off in rw quiet refl) refl
          (unfold is_waiting is_none in refl)
    Reads-quiet end_of_stream canceled quiet =
        Reads-end lib (suc n) _ events polls broken true none (connection events polls broken)
          (unfold pump_one receive take_recv poll take_packet break_off in rw quiet refl) refl
          (unfold is_waiting is_none in refl)
    Reads-quiet other canceled quiet =
        Reads-wait lib (suc n) _ events polls broken broken _
          (unfold pump_one receive take_recv poll take_packet in rw quiet refl)
          (later (suc n) broken (omega arith))

    abbrev why : Option Bytes
    why = said canceled_text

    -- A reception behind which the query was canceled, with no block in it.
    Reads-nothing :
        (x : Recv B) (canceled eos broke : Bool)
        → pump_one lib (from x canceled) ≡ response none eos why (connection events polls broke)
        → Reads lib (suc (suc n)) (from x canceled) ([], why)
    Reads-nothing x canceled eos broke same =
        Reads-end lib (suc n) _ events polls broken eos why (connection events polls broke) same
          refl (not-waiting eos broke)
      where
        not-waiting :
            (eos broke : Bool)
            → is_waiting (response none eos why (connection events polls broke)) ≡ false
        not-waiting true broke = unfold is_waiting is_none in refl
        not-waiting false broke = unfold is_waiting is_none said in refl

    Reads-canceled :
        (p : Packet B) (canceled : Bool)
        → (polls && canceled) ≡ true
        → Reads lib (suc (suc n)) (from (received p) canceled) (last_blocks lib p, why)
    unfolding last_blocks before_block said
    Reads-canceled (data_packet none) canceled loud = Reads-nothing _ canceled false broken (
        unfold pump_one receive take_recv poll take_packet take_block stage break_off in
        rw loud (unfold set_error said in refl))
    Reads-canceled (data_packet (some b)) canceled loud =
        elim (Bool-cases (ltb 0 (lib.n_columns b))) [
          | inr empty ↦ rw empty (
              Reads-nothing _ canceled false broken (
                unfold pump_one receive take_recv poll take_packet take_block stage break_off in
                rw (loud, empty) (unfold set_error said in refl)))
          | inl columns ↦ rw columns (elim (Option-cases (validate lib b)) [
            | inl fine ↦ rw fine (
                Reads-block lib (suc n) _ events polls broken b why (connection events polls broken)
                  ([], why)
                  (unfold pump_one receive take_recv poll take_packet take_block stage break_off in
                    rw (loud, columns, fine) (unfold set_error said in refl))
                  refl
                  (let done =
                      read_all_end lib n false why (connection events polls broken)
                        (unfold is_waiting is_none said in refl) in
                    (ap (λ x. x.0) done, ap (λ x. x.1.error) done)))
            | inr (msg, bad) ↦ rw bad (
                Reads-nothing _ canceled true true (
                  unfold pump_one receive take_recv poll take_packet take_block stage break_off in
                  rw (loud, columns, bad) (unfold set_error said in refl)))
          ])
        ]
    Reads-canceled (exception x) canceled loud = Reads-nothing _ canceled true true (
        unfold pump_one receive take_recv poll take_packet take_block stage break_off in
        rw loud (unfold set_error said in refl))
    Reads-canceled end_of_stream canceled loud = Reads-nothing _ canceled true broken (
        unfold pump_one receive take_recv poll take_packet take_block stage break_off in
        rw loud (unfold set_error said in refl))
    Reads-canceled other canceled loud = Reads-nothing _ canceled false broken (
        unfold pump_one receive take_recv poll take_packet take_block stage break_off in
        rw loud (unfold set_error said in refl))

    Reads-recv :
        (x : Recv B) (canceled : Bool)
        → Reads lib
            (suc (suc n))
            (from x canceled)
            (meaning_recv lib x (polls && canceled) (meaning lib polls events))
    unfolding meaning_recv
    Reads-recv (failed msg) canceled =
        Reads-end lib (suc n) _ events polls broken true (said msg) (connection events polls true)
          (unfold pump_one receive take_recv poll take_packet take_block stage break_off in
            (unfold set_error said in refl))
          refl (unfold is_waiting is_none in refl)
    Reads-recv (received p) canceled = elim (Bool-cases (polls && canceled)) [
      | inl loud ↦ rw loud (Reads-canceled p canceled loud)
      | inr quiet ↦ rw quiet (Reads-quiet p canceled quiet)
    ]

  -- The failure behind the last reception.
  failed_read :
      (polls broken : Bool)
      → pump_until lib (fresh (connection [] polls broken))
        ≡ response none true (said []) (connection [] polls true)
  unfolding pump_until pump_loop is_waiting is_none pump_one receive take_recv break_off set_error
      said
  failed_read polls broken = refl

  nothing_left :
      (n : ℕ) (polls broken : Bool)
      → Reads lib (suc n) (fresh (connection [] polls broken)) ([], said [])
  unfolding read_all fetch_next_block
  nothing_left n polls broken =
      let all =
        ap
          (λ (p : Response B).
            add_found p.staged (record p { staged = none })
              (read_all lib n (record p { staged = none })))
          (failed_read polls broken) in
      (
        ap (λ x. x.0) all ∙ unfold add_found in refl,
        ap (λ x. x.1.error) all ∙ unfold add_found in refl,
      )

  -- A response delivers exactly the blocks that the server's packets mean, in their order, and
  -- behind them the error that ended the result, or none if the server ended it itself: no block is
  -- lost or repeated, and no result that breaks off passes for a whole one. Reading as often as there
  -- are receptions, and once more, is enough.
  pub read_all-meaning :
      (n : ℕ) (events : List (Event B)) (polls broken : Bool)
      → length events ≤ n
      → ((read_all lib
            (suc n)
            (fresh (record { incoming = events; polls = polls; broken = broken }))).0
          ≡ (meaning lib polls events).0)
        × ((read_all lib
              (suc n)
              (fresh (record { incoming = events; polls = polls; broken = broken }))).1.error
            ≡ (meaning lib polls events).1)
  unfolding meaning
  read_all-meaning n [] polls broken h = nothing_left n polls broken
  read_all-meaning zero (e ∷ events) polls broken h = absurd (omega arith)
  read_all-meaning (suc n) (e ∷ events) polls broken h =
      Reads-recv n events polls broken
        (λ k broken' enough. read_all-meaning k events polls broken' (omega arith)) e.recv
        e.canceled

-- ===== src/Binary/Source/Rounds.antt =====
-- What one reception does to a response of src/binary/select.c.
use pg_clickhouse.Prelude.{
  ℕ, zero, suc, ◌≡◌, refl, ap, sym, ◌∙◌, Bytes, Bool, true, false, List, [], ◌∷◌, Option, none,
  some, length,
}
use pg_clickhouse.Binary.{
  Event, BinaryConnection, Response, BlockLibrary, pump_one, is_none, is_waiting, pump_loop,
  pump_until, fetch_next_block, fresh,
}
use pg_clickhouse.Binary.Source.{add_found, read_all, before_block}

abbrev pub response :
    {B : Type 0} → Option B → Bool → Option Bytes → BinaryConnection B → Response B
response staged eos error conn = record { staged = staged; eos = eos; error = error; conn = conn }

abbrev pub connection : {B : Type 0} → List (Event B) → Bool → Bool → BinaryConnection B
connection incoming polls broken = record { incoming = incoming; polls = polls; broken = broken }

module _ {B : Type 0} (lib : BlockLibrary B) where
  pump_loop_stop : (n : ℕ) (r : Response B) → is_waiting r ≡ false → pump_loop lib n r ≡ r
  unfolding pump_loop
  pump_loop_stop zero r h = refl
  pump_loop_stop (suc n) r h = rw h refl

  pump_loop_on :
      (n : ℕ) (r : Response B)
      → is_waiting r ≡ true
      → pump_loop lib (suc n) r ≡ pump_loop lib n (pump_one lib r)
  unfolding pump_loop
  pump_loop_on n r h = rw h refl

  -- A response that waits is read on by one reception.
  pump_until_on :
      (r : Response B) (e : Event B) (events : List (Event B))
      → is_waiting r ≡ true
      → r.conn.incoming ≡ e ∷ events
      → (pump_one lib r).conn.incoming ≡ events
      → pump_until lib r ≡ pump_until lib (pump_one lib r)
  unfolding pump_until
  pump_until_on r e events h many rest =
      pump_loop_on (length r.conn.incoming) r h
      ∙ ap (λ k. pump_loop lib k (pump_one lib r))
          (ap length many ∙ ap (λ l. suc (length l)) (sym rest))

  pump_until_stop : (r : Response B) → is_waiting r ≡ false → pump_until lib r ≡ r
  unfolding pump_until
  pump_until_stop r h = pump_loop_stop (suc (length r.conn.incoming)) r h

  read_all-pump_one :
      (n : ℕ) (r s : Response B)
      → pump_until lib r ≡ pump_until lib s
      → read_all lib (suc n) r ≡ read_all lib (suc n) s
  unfolding read_all fetch_next_block
  read_all-pump_one n r s same =
      ap
        (λ p.
          add_found p.staged (record p { staged = none })
            (read_all lib n (record p { staged = none })))
        same

  -- A response that has ended.
  pub read_all_end :
      (n : ℕ) (eos : Bool) (error : Option Bytes) (c : BinaryConnection B)
      → is_waiting (response none eos error c) ≡ false
      → read_all lib (suc n) (response none eos error c) ≡ ([], response none eos error c)
  unfolding read_all fetch_next_block
  read_all_end n eos error c h =
      ap
        (λ (p : Response B).
          add_found p.staged (record p { staged = none })
            (read_all lib n (record p { staged = none })))
        (pump_until_stop (response none eos error c) h)
      ∙ unfold add_found in refl

  -- What is read of a response, with the error behind it.
  abbrev pub Reads : ℕ → Response B → List B × Option Bytes → Type 0
  Reads n r m = ((read_all lib n r).0 ≡ m.0) × ((read_all lib n r).1.error ≡ m.1)

  Reads-subst :
      (n : ℕ) (r s : Response B) (m : List B × Option Bytes)
      → read_all lib n r ≡ read_all lib n s
      → Reads n s m
      → Reads n r m
  Reads-subst n r s m same (h, w) = (ap (λ x. x.0) same ∙ h, ap (λ x. x.1.error) same ∙ w)

  -- The three things that one reception can lead to.
  module _ (n : ℕ) (e : Event B) (events : List (Event B)) (polls broken : Bool) where
    abbrev at_start : Response B
    at_start = fresh (connection (e ∷ events) polls broken)

    start_waits : is_waiting at_start ≡ true
    unfolding is_waiting is_none
    start_waits = refl

    pub Reads-wait :
        (broken' : Bool) (m : List B × Option Bytes)
        → pump_one lib at_start ≡ fresh (connection events polls broken')
        → Reads (suc n) (fresh (connection events polls broken')) m
        → Reads (suc n) at_start m
    Reads-wait broken' m same h =
        Reads-subst (suc n) at_start (fresh (connection events polls broken')) m
          (read_all-pump_one n at_start _ (
            pump_until_on at_start e events start_waits refl
              (ap (λ (r : Response B). r.conn.incoming) same)
            ∙ ap (pump_until lib) same))
          h

    -- The response is left as it is after the reception.
    pumped :
        (r : Response B)
        → pump_one lib at_start ≡ r
        → r.conn.incoming ≡ events
        → is_waiting r ≡ false
        → pump_until lib at_start ≡ r
    pumped r same rest h =
        pump_until_on at_start e events start_waits refl
          (ap (λ (s : Response B). s.conn.incoming) same ∙ rest)
        ∙ ap (pump_until lib) same
        ∙ pump_until_stop r h

    pub Reads-end :
        (eos : Bool) (error : Option Bytes) (c : BinaryConnection B)
        → pump_one lib at_start ≡ response none eos error c
        → c.incoming ≡ events
        → is_waiting (response none eos error c) ≡ false
        → Reads (suc n) at_start ([], error)
    Reads-end eos error c same rest h =
        Reads-subst (suc n) at_start (response none eos error c) ([], error)
          (read_all-pump_one n at_start _
            (pumped (response none eos error c) same rest h ∙ sym (pump_until_stop _ h)))
          (let done = read_all_end n eos error c h in
            (ap (λ x. x.0) done, ap (λ x. x.1.error) done))

    pub Reads-block :
        (b : B) (error : Option Bytes) (c : BinaryConnection B) (m : List B × Option Bytes)
        → pump_one lib at_start ≡ response (some b) false error c
        → c.incoming ≡ events
        → Reads n (response none false error c) m
        → Reads (suc n) at_start (before_block b m)
    unfolding read_all fetch_next_block before_block
    Reads-block b error c m same rest (h, w) =
        let all =
          ap
            (λ (p : Response B).
              add_found p.staged (record p { staged = none })
                (read_all lib n (record p { staged = none })))
            (pumped (response (some b) false error c) same rest
              (unfold is_waiting is_none in refl)) in
        (
          ap (λ x. x.0) all ∙ unfold add_found in ap (λ l. b ∷ l) h,
          ap (λ x. x.1.error) all ∙ unfold add_found in w,
        )

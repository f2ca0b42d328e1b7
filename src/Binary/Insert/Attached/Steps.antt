-- ===== src/Binary/Insert/Attached/Steps.antt =====
-- The transitions of src/binary/insert.c, one by one.
use pg_clickhouse.Prelude.{
  ℕ, ◌-◌, ◌≡◌, refl, ap, subst, ◌∙◌, sym, Bytes, Bool, true, false, List, [], ◌∷◌, Option, none,
  some, ◌==◌, ==_iff, if◌then◌else◌, Result, ok, err, arith, inl, inr, Bool-cases,
}
use pg_clickhouse.Binary.{BinaryConnection, BlockLibrary, drain_connection}
use pg_clickhouse.Binary.Insert.{
  Handle, InsertError, Inserts, Begin, recv_initial_block, drain_aborted_insert, set_handle,
  open_handle, make_writer, begin_sent, begin_insert, remove, flush_sent, flush_block,
  finalize_sent, finalize_open, finalize_if, finalize_insert, release_insert,
}
use pg_clickhouse.Binary.Insert.Attached.{IsAttached, occurs, attached}

pub attached-set_handle :
    (h : ℕ) (new : Handle) (handles : ℕ → Handle) (i : ℕ)
    → attached (set_handle h new handles i)
      ≡ (if h == i then attached new else attached (handles i))
unfolding set_handle
attached-set_handle h new handles i = elim (Bool-cases (h == i)) [
  | inl y ↦ rw y refl
  | inr n ↦ rw n refl
]

occurs-remove :
    (h x : ℕ) (l : List ℕ) → occurs h (remove x l) ≡ occurs h l - (if x == h then 1 else 0)
unfolding occurs remove
occurs-remove h x [] = ground arith
occurs-remove h x (i ∷ l) = ground (arith, occurs-remove h x l)

-- A change of the connection alone, and of a handle that keeps its connection.
IsAttached-conn :
    {B : Type 0} (s : Inserts B) (conn : BinaryConnection B)
    → IsAttached s
    → IsAttached (record s { conn = conn })
IsAttached-conn s conn h = record { listed = h.listed; unborn = h.unborn }

IsAttached-open_handle :
    {B : Type 0} (s : Inserts B) (conn : BinaryConnection B)
    → IsAttached s
    → IsAttached (open_handle s conn).0
unfolding open_handle
IsAttached-open_handle s conn h = record {
  listed = λ i.
      unfold occurs in
      rw (attached-set_handle s.next (record { conn = true; finalized = false }) s.handles i)
        (elim (Bool-cases (s.next == i)) [
          | inl y ↦
              let same : s.next ≡ i = (==_iff s.next i).0 y in
              let unlisted : occurs i s.inserts ≡ 0 = h.listed i ∙ h.unborn i (omega arith) in
              rw y (unfold attached in omega arith)
          | inr n ↦ rw n (let before = h.listed i in omega arith)
        ]);
  unborn = λ i late.
      rw (attached-set_handle s.next (record { conn = true; finalized = false }) s.handles i)
        (let other : (s.next == i) ≡ false = ground arith in rw other (h.unborn i (omega arith)));
}

pub IsAttached-begin :
    {B : Type 0} (lib : BlockLibrary B) (s : Inserts B) (b : Begin)
    → IsAttached s
    → IsAttached (begin_insert lib s b).0
unfolding begin_insert
IsAttached-begin {B} lib s b h = begun b.query_sent
  where
    made :
        (raised : Option Bytes) (r : BinaryConnection B × Result InsertError B)
        → IsAttached (make_writer s b raised r).0
    made raised (conn, err why) = unfold make_writer in IsAttached-conn s conn h
    made (some msg) (conn, ok block) =
        unfold make_writer in IsAttached-conn s (drain_aborted_insert b.empty_sent conn) h
    made none (conn, ok block) = unfold make_writer in IsAttached-open_handle s conn h

    begun : (sent : Option Bytes) → IsAttached (begin_sent lib s b sent).0
    begun (some msg) = unfold begin_sent in IsAttached-conn s (record s.conn { broken = true }) h
    begun none =
        unfold begin_sent in made b.writer_raised (recv_initial_block lib s.conn.incoming s.conn)

pub IsAttached-flush :
    {B : Type 0} (s : Inserts B) (h : ℕ) (sent : Option Bytes)
    → IsAttached s
    → IsAttached (flush_block s h sent).0
unfolding flush_block
IsAttached-flush s h sent a = elim (Bool-cases (s.handles h).conn) [
  | inl y ↦ rw y (flushed sent)
  | inr n ↦ rw n a
]
  where
    flushed : (sent : Option Bytes) → IsAttached (flush_sent s sent).0
    flushed (some msg) = unfold flush_sent in IsAttached-conn s (record s.conn { broken = true }) a
    flushed none = unfold flush_sent in a

-- A handle that keeps its connection.
IsAttached-same :
    {B : Type 0} (s : Inserts B) (h : ℕ) (new : Handle)
    → attached new ≡ attached (s.handles h)
    → IsAttached s
    → IsAttached (record s { handles = set_handle h new s.handles })
IsAttached-same s h new same a = record {
  listed = λ i. a.listed i ∙ sym (kept i);
  unborn = λ i late. kept i ∙ a.unborn i late;
}
  where
    kept : (i : ℕ) → attached (set_handle h new s.handles i) ≡ attached (s.handles i)
    kept i = attached-set_handle h new s.handles i ∙ elim (Bool-cases (h == i)) [
      | inl y ↦ rw y (same ∙ ap (λ j. attached (s.handles j)) ((==_iff h i).0 y))
      | inr n ↦ rw n refl
    ]

pub IsAttached-finalize :
    {B : Type 0} (s : Inserts B) (h : ℕ) (sent : Option Bytes)
    → IsAttached s
    → IsAttached (finalize_insert s h sent).0
unfolding finalize_insert
IsAttached-finalize {B} s h sent a = by_finalized (s.handles h).finalized
  where
    sending :
        (t : Inserts B) (sent : Option Bytes) → IsAttached t → IsAttached (finalize_sent t sent).0
    sending t (some msg) b =
        unfold finalize_sent in IsAttached-conn t (record t.conn { broken = true }) b
    sending t none b = unfold finalize_sent in IsAttached-conn t (drain_connection t.conn).0 b

    by_conn : (c : Bool) → (s.handles h).conn ≡ c → IsAttached (finalize_open s h sent c).0
    by_conn false e = unfold finalize_open in a
    by_conn true e =
        unfold finalize_open in
        sending
          (record s { handles = set_handle h (record { conn = true; finalized = true }) s.handles })
          sent
          (IsAttached-same s h (record { conn = true; finalized = true })
            (unfold attached in rw e refl) a)

    by_finalized : (f : Bool) → IsAttached (finalize_if s h sent f).0
    by_finalized true = unfold finalize_if in a
    by_finalized false = unfold finalize_if in by_conn (s.handles h).conn refl

pub IsAttached-release :
    {B : Type 0} (s : Inserts B) (h : ℕ) → IsAttached s → IsAttached (release_insert s h)
unfolding release_insert
IsAttached-release s h a = elim (Bool-cases (s.handles h).conn) [
  | inr n ↦ rw n a
  | inl y ↦ rw y (record {
    listed = λ i.
        rw
          (
            attached-set_handle h (record { conn = false; finalized = (s.handles h).finalized })
                s.handles i,
            occurs-remove i h s.inserts,
          )
          (let before = a.listed i in
            let mine = a.listed h in
            elim (Bool-cases (h == i)) [
              | inl e ↦
                  let same : h ≡ i = (==_iff h i).0 e in
                  let one : attached (s.handles h) ≡ 1 = unfold attached in rw y refl in
                  let at_i : attached (s.handles i) ≡ 1 =
                    subst (λ j. attached (s.handles j) ≡ 1) same one in
                  let none_left : occurs i s.inserts - 1 ≡ 0 = omega arith in
                  rw e (none_left ∙ unfold attached in refl)
              | inr o ↦ rw o (omega arith)
            ]);
    unborn = λ i late.
        rw
          (attached-set_handle h (record { conn = false; finalized = (s.handles h).finalized })
            s.handles i)
          (let old = a.unborn i late in
            elim (Bool-cases (h == i)) [
              | inl e ↦ rw e (unfold attached in refl)
              | inr o ↦ rw o old
            ]);
  })
]

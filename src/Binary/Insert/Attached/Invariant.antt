-- ===== src/Binary/Insert/Attached/Invariant.antt =====
-- The list of open INSERTs of src/binary/insert.c in every state.
use pg_clickhouse.Prelude.{
  ℕ, ◌+◌, ◌-◌, ◌≤◌, ◌≡◌, refl, ◌∙◌, sym, false, List, [], ◌∷◌, ◌==◌, arith, inl, inr, Bool-cases,
}
use pg_clickhouse.Binary.{BlockLibrary}
use pg_clickhouse.Binary.Insert.{Handle, Inserts, set_handle, detach, detach_inserts}
use pg_clickhouse.Binary.Insert.Attached.{
  IsAttached, Step, Reachable, occurs, attached, begin, flush, finalize, release, close, start,
  next,
}
use pg_clickhouse.Binary.Insert.Attached.Steps.{
  attached-set_handle, IsAttached-begin, IsAttached-flush, IsAttached-finalize, IsAttached-release,
}

attached_le_one : (h : Handle) → attached h ≤ 1
unfolding attached
attached_le_one h = ground arith

-- What the detaching of a list leaves of one handle.
attached-detach :
    (l : List ℕ) (handles : ℕ → Handle) (i : ℕ)
    → attached (detach l handles i) ≡ attached (handles i) - occurs i l
unfolding detach occurs
attached-detach [] handles i = omega arith
attached-detach (h ∷ l) handles i =
    attached-detach l
      (set_handle h (record { conn = false; finalized = (handles h).finalized }) handles) i
    ∙ rw
        (attached-set_handle h (record { conn = false; finalized = (handles h).finalized }) handles
          i)
        (let most = attached_le_one (handles i) in
          elim (Bool-cases (h == i)) [
            | inl y ↦ rw y (
                let none_left : 0 - occurs i l ≡ attached (handles i) - (1 + occurs i l) =
                  omega arith in
                unfold attached in none_left)
            | inr n ↦ rw n (omega arith)
          ])

IsAttached-detach : {B : Type 0} (s : Inserts B) → IsAttached s → IsAttached (detach_inserts s)
unfolding detach_inserts
IsAttached-detach s a = record {
  listed = λ i.
      let before = a.listed i in
      let gone = attached-detach s.inserts s.handles i in unfold occurs in omega arith;
  unborn = λ i late.
      let before = a.unborn i late in
      let gone = attached-detach s.inserts s.handles i in omega arith;
}

IsAttached-Step :
    {B : Type 0} (lib : BlockLibrary B) {s t : Inserts B}
    → Step lib s t
    → IsAttached s
    → IsAttached t
IsAttached-Step lib {s} (begin b) a = IsAttached-begin lib s b a
IsAttached-Step lib {s} (flush h sent) a = IsAttached-flush s h sent a
IsAttached-Step lib {s} (finalize h sent) a = IsAttached-finalize s h sent a
IsAttached-Step lib {s} (release h) a = IsAttached-release s h a
IsAttached-Step lib {s} close a = IsAttached-detach s a

-- Whatever INSERTs begin, flush, end and are released on a connection, in any order: its list holds
-- each handle that still has the connection, once, and no other. So when the connection is closed,
-- which detaches the handles of the list, no handle is left that has it.
pub IsAttached-Reachable :
    {B : Type 0} (lib : BlockLibrary B) {s : Inserts B} → Reachable lib s → IsAttached s
IsAttached-Reachable lib (start conn) = record {
  listed = λ h. unfold occurs attached in refl;
  unborn = λ h late. unfold attached in refl;
}
IsAttached-Reachable lib (next before step) =
    IsAttached-Step lib step (IsAttached-Reachable lib before)

closed-attached :
    {B : Type 0} (lib : BlockLibrary B) {s : Inserts B} (h : ℕ)
    → Reachable lib s
    → attached ((detach_inserts s).handles h) ≡ 0
closed-attached lib {s} h reached =
    let after = (IsAttached-detach s (IsAttached-Reachable lib reached)).listed h in
    sym after ∙ unfold occurs detach_inserts in refl

-- ===== src/Connections/Serves.antt =====
-- A connection of src/connection.c that is in use stays the connection of its entry.
mod Keeps
unfoldable pub use Keeps.*
use pg_clickhouse.Prelude.{
  ℕ, zero, suc, ◌+◌, ◌≤◌, ◌≡◌, refl, ap, sym, subst, ◌∙◌, Bool, true, false, not, ◌&&◌, List, [],
  ◌∷◌, Option, none, some, ◌==◌, ==_iff, if◌then◌else◌, Result, ok, err, arith, All, inl, inr,
  Bool-cases,
}
use pg_clickhouse.Connections.{
  Conn, ConnectError, Entry, Lease, Backend, Request, find, entry_of, set, is_broken, close_if,
  attempt, reset_entry, reconnect, refresh, get_connection_entry, lease_cached, lease_private,
  lease_entry, get_scan_connection,
}
use pg_clickhouse.Connections.Step.{
  lease_at, mark_released, release_target, release_lease_of, release_scan_connection, is_current,
  release_lease, CacheId, invalidate, inval_callback, XactEvent, ends_transaction, settle_all,
  close_all, xact_callback, get_server_version, Step, lease, version, release, reset, inval, xact,
  Reachable, start, next,
}
use pg_clickhouse.Options.Extract.{or_default}
use pg_clickhouse.Connections.Ledger.{find-set, gate-invalidate_entry}
use pg_clickhouse.Connections.Exclusive.{
  flag, holds, is_key, live, IsExclusive, IsOld, live-old, holds-released,
  get_connection_entry-IsExclusive, entry_of-set, Reachable-IsExclusive,
}

abbrev IsServing : Backend → Type 0
IsServing s = All (Serves s.generation s.cache) s.leases

get_connection_entry-IsServing :
    (s : Backend) (r : Request)
    → IsExclusive s
    → IsServing s
    → IsServing (get_connection_entry s r).0
unfolding get_connection_entry
get_connection_entry-IsServing s r x h =
    let e = (refresh r (entry_of r.umid s.cache) s.opened).0 in
    Keeps-All s.generation s.cache (set r.umid e s.cache) s.leases
      (set-Keeps r.umid e s.cache (λ c. refresh-busy r (entry_of r.umid s.cache) s.opened c)) x.used
      h

lease_private-IsServing :
    (s : Backend) (answer : Result ConnectError Conn)
    → IsServing s
    → IsServing (lease_private s answer).0
unfolding lease_private
lease_private-IsServing s (err reason) h = h
lease_private-IsServing s (ok c) h =
    let l : Lease = record {
      gate = c;
      entry = none;
      generation = s.generation;
      released = false;
    } in
    let other : (k : ℕ) → is_key k l.entry ≡ false = λ k. unfold is_key in refl in
    ((λ k one. absurd (not-both (holds-off s.generation k l (other k)) one)), h)

lease_entry-IsServing :
    (s : Backend) (r : Request) (e : Entry) (busy : Bool) (answer : Result ConnectError Conn)
    → IsExclusive s
    → e.gate ≡ gate_at r.umid s.cache
    → ((c : Conn) → answer ≡ ok c → e.gate ≡ some c)
    → IsServing s
    → IsServing (lease_entry s r e busy answer).0
unfolding lease_entry
lease_entry-IsServing s r e busy (err reason) x same good h = h
lease_entry-IsServing s r e true (ok c) x same good h =
    lease_private-IsServing s r.connect_private h
lease_entry-IsServing s r e false (ok c) x same good h =
    unfold lease_cached in
    (
      (λ k one. elim (Bool-cases (r.umid == k)) [
        | inl y ↦
            let now : gate_at k (set r.umid (record e { busy = true }) s.cache)
                ≡ (if r.umid == k then record e { busy = true } else entry_of k s.cache).gate =
              ap (λ (x : Entry). x.gate)
                (entry_of-set k r.umid (record e { busy = true }) s.cache) in
            now ∙ rw y (good c refl)
        | inr n ↦
            let l : Lease = record {
              gate = c;
              entry = some r.umid;
              generation = s.generation;
              released = false;
            } in
            let other : is_key k l.entry ≡ false = unfold is_key in n in
            absurd (not-both (holds-off s.generation k l other) one)
      ]),
      Keeps-All s.generation s.cache _ s.leases
          (set-Keeps r.umid (record e { busy = true }) s.cache (λ d _ gate. same ∙ gate)) x.used h,
    )

mark_released-IsServing :
    (g : ℕ) (cache : List (ℕ × Entry)) (i : ℕ) (ls : List Lease)
    → All (Serves g cache) ls
    → All (Serves g cache) (mark_released i ls)
unfolding mark_released
mark_released-IsServing g cache i [] h = h
mark_released-IsServing g cache zero (l ∷ ls) (h, t) =
    ((λ k one. absurd (not-both (holds-released g k l) one)), t)
mark_released-IsServing g cache (suc i) (l ∷ ls) (h, t) =
    (h, mark_released-IsServing g cache i ls t)

release_target-IsServing :
    (s : Backend) (i : ℕ) (c : Conn) (k : Option ℕ)
    → IsExclusive s
    → IsServing s
    → IsServing (release_target (record s { leases = mark_released i s.leases }) c k)
unfolding release_target
release_target-IsServing s i c none x h = mark_released-IsServing s.generation s.cache i s.leases h
release_target-IsServing s i c (some u) x h =
    let freed = set u (record (entry_of u s.cache) { busy = false }) s.cache in
    mark_released-IsServing s.generation freed i s.leases (
      Keeps-All s.generation s.cache freed s.leases
        (set-Keeps u (record (entry_of u s.cache) { busy = false }) s.cache (λ d _ gate. gate))
        x.used h)

release_lease_of-IsServing :
    (s : Backend) (i : ℕ) (l : Option Lease)
    → IsExclusive s
    → IsServing s
    → IsServing (release_lease_of s i l)
unfolding release_lease_of
release_lease_of-IsServing s i none x h = h
release_lease_of-IsServing s i (some l) x h = elim (Bool-cases l.released) [
  | inl y ↦ rw y h
  | inr n ↦ rw n (release_target-IsServing s i l.gate l.entry x h)
]

holds-later : (g k : ℕ) (l : Lease) → IsOld g l → holds (g + 1) k l ≡ 0
unfolding live
holds-later g k l h =
    let none_left : holds (g + 1) k l + 0 ≡ 0 = live-old g k (l ∷ []) (h, tt) in omega arith

later-Serves :
    (g : ℕ) (cache : List (ℕ × Entry)) (ls : List Lease)
    → All (IsOld g) ls
    → All (Serves (g + 1) cache) ls
later-Serves g cache [] h = tt
later-Serves g cache (l ∷ ls) (h, t) =
    ((λ k one. absurd (not-both (holds-later g k l h) one)), later-Serves g cache ls t)

xact_callback-IsServing :
    (s : Backend) (event : XactEvent)
    → IsExclusive s
    → IsServing s
    → IsServing (xact_callback s event)
unfolding xact_callback
xact_callback-IsServing s event x h = elim (Bool-cases (ends_transaction event)) [
  | inl y ↦ rw y (later-Serves s.generation _ s.leases x.old)
  | inr n ↦ rw n h
]

Step-IsServing : {s t : Backend} → Step s t → IsExclusive s → IsServing s → IsServing t
Step-IsServing {s} (lease q) x h =
    let e = (get_connection_entry s q).1 in
    unfold get_scan_connection in
    lease_entry-IsServing (get_connection_entry s q).0 q e e.busy (get_connection_entry s q).2
      (get_connection_entry-IsExclusive s q x)
      (ap (λ (y : Entry). y.gate) (unfold get_connection_entry in sym (find-set q.umid e s.cache)))
      (λ c. unfold get_connection_entry refresh in reconnect-ok q (entry_of q.umid s.cache) _ _ c)
      (get_connection_entry-IsServing s q x h)
Step-IsServing {s} (version q v) x h =
    unfold get_server_version in get_connection_entry-IsServing s q x h
Step-IsServing {s} (release i now) x h =
    unfold release_scan_connection in release_lease_of-IsServing s i _ x h
Step-IsServing {s} (reset i) x h =
    unfold release_lease in
    elim (Bool-cases (is_current s (lease_at i s.leases))) [
      | inl y ↦ rw y (unfold release_scan_connection in release_lease_of-IsServing s i _ x h)
      | inr n ↦ rw n h
    ]
Step-IsServing {s} (inval id hash) x h =
    unfold inval_callback in
    Keeps-All s.generation s.cache (invalidate id hash s.cache) s.leases
      (invalidate-Keeps id hash s.cache) x.used h
Step-IsServing {s} (xact event) x h = xact_callback-IsServing s event x h

Reachable-IsServing : {s : Backend} → Reachable s → IsServing s
Reachable-IsServing start = tt
Reachable-IsServing (next before step) =
    Step-IsServing step (Reachable-IsExclusive before) (Reachable-IsServing before)

All-lease_at :
    (P : Lease → Type 0) (i : ℕ) (ls : List Lease) (l : Lease)
    → All P ls
    → lease_at i ls ≡ some l
    → P l
unfolding lease_at
All-lease_at P i [] l h e = cc
All-lease_at P zero (x ∷ ls) l (h, t) e = let same : x ≡ l = cc in subst P same h
All-lease_at P (suc i) (x ∷ ls) l (h, t) e = All-lease_at P i ls l t e

-- Whatever happens to a backend, a lease that is in use on a cache entry holds the connection that
-- the entry has: the connection is not closed or replaced while its holder uses it.
pub gate-lease_at :
    {s : Backend} (i k : ℕ) (l : Lease)
    → Reachable s
    → lease_at i s.leases ≡ some l
    → holds s.generation k l ≡ 1
    → (entry_of k s.cache).gate ≡ some l.gate
gate-lease_at {s} i k l reached there one =
    All-lease_at (Serves s.generation s.cache) i s.leases l (Reachable-IsServing reached) there k
      one

-- ===== src/Connections/Exclusive.antt =====
-- Who uses the cached connections of src/connection.c.
mod Live
unfoldable pub use Live.*
use pg_clickhouse.Prelude.{
  ℕ, zero, suc, ◌+◌, ◌≤◌, ◌≡◌, refl, ap, ◌∙◌, subst, Bool, true, false, not, ◌&&◌, List, [], ◌∷◌,
  Option, none, some, ◌==◌, ==_iff, if◌then◌else◌, Result, ok, err, arith, All, inl, inr,
  Bool-cases,
}
use pg_clickhouse.Connections.{
  Conn, ConnectError, Entry, Lease, Backend, Request, find, entry_of, set, attempt, reset_entry,
  reconnect, refresh, get_connection_entry, lease_cached, lease_private, lease_entry,
  get_scan_connection,
}
use pg_clickhouse.Options.Extract.{or_default}
use pg_clickhouse.Connections.Step.{
  lease_at, mark_released, release_target, release_lease_of, release_scan_connection, is_current,
  release_lease, CacheId, is_hit, invalidate_entry, invalidate, inval_callback, XactEvent,
  ends_transaction, xact_callback, get_server_version, Step, lease, version, release, reset, inval,
  xact, Reachable, start, next,
}
use pg_clickhouse.Connections.Ledger.{find-set}

pub get_connection_entry-IsExclusive :
    (s : Backend) (r : Request) → IsExclusive s → IsExclusive (get_connection_entry s r).0
unfolding get_connection_entry
get_connection_entry-IsExclusive s r h = record {
  used = λ k.
      rw
        (busy-set k r.umid (refresh r (entry_of r.umid s.cache) s.opened).0 s.cache
          (busy-refresh r (entry_of r.umid s.cache) s.opened))
        (h.used k);
  old = h.old;
}

lease_cached-IsExclusive :
    (s : Backend) (r : Request) (x : Entry) (c : Conn)
    → (entry_of r.umid s.cache).busy ≡ false
    → IsExclusive s
    → IsExclusive (lease_cached s r x c)
unfolding lease_cached flag
lease_cached-IsExclusive s r x c idle h = record {
  used = λ k. rw (entry_of-set k r.umid (record x { busy = true }) s.cache) (
      unfold live holds is_key in
      rw ((==_iff s.generation s.generation).1 refl) (elim (Bool-cases (r.umid == k)) [
        | inl y ↦
            let none_yet : live s.generation k s.leases ≤ 0 =
              subst (λ j. live s.generation j s.leases ≤ 0) ((==_iff r.umid k).0 y)
                (subst (λ b. live s.generation r.umid s.leases ≤ flag b) idle (h.used r.umid)) in
            rw y (omega arith)
        | inr n ↦ rw n (let before = h.used k in omega arith)
      ]));
  old = (omega arith, h.old);
}

lease_private-IsExclusive :
    (s : Backend) (answer : Result ConnectError Conn)
    → IsExclusive s
    → IsExclusive (lease_private s answer).0
unfolding lease_private
lease_private-IsExclusive s (err reason) h = h
lease_private-IsExclusive s (ok c) h = record {
  used = λ k.
      unfold live holds is_key flag in
      rw ((==_iff s.generation s.generation).1 refl) (let now = h.used k in omega arith);
  old = (omega arith, h.old);
}

lease_entry-IsExclusive :
    (s : Backend) (r : Request) (x : Entry) (busy : Bool) (answer : Result ConnectError Conn)
    → (entry_of r.umid s.cache).busy ≡ busy
    → IsExclusive s
    → IsExclusive (lease_entry s r x busy answer).0
unfolding lease_entry
lease_entry-IsExclusive s r x busy (err reason) same h = h
lease_entry-IsExclusive s r x true (ok c) same h = lease_private-IsExclusive s r.connect_private h
lease_entry-IsExclusive s r x false (ok c) same h = lease_cached-IsExclusive s r x c same h

IsOld-mark_released :
    (g i : ℕ) (ls : List Lease) → All (IsOld g) ls → All (IsOld g) (mark_released i ls)
unfolding mark_released
IsOld-mark_released g i [] h = h
IsOld-mark_released g zero (l ∷ ls) h = h
IsOld-mark_released g (suc i) (l ∷ ls) (h, t) = (h, IsOld-mark_released g i ls t)

IsOld-later : (g : ℕ) (ls : List Lease) → All (IsOld g) ls → All (IsOld (g + 1)) ls
IsOld-later g [] h = h
IsOld-later g (l ∷ ls) (h, t) = (omega arith, IsOld-later g ls t)

flag_le_one : (b : Bool) → flag b ≤ 1
unfolding flag
flag_le_one true = omega arith
flag_le_one false = omega arith

holds-live :
    (g k u : ℕ) (l : Lease)
    → l.entry ≡ some u
    → l.released ≡ false
    → l.generation ≡ g
    → (u == k) ≡ true
    → holds g k l ≡ 1
unfolding holds flag is_key
holds-live g k u l key unused now y = rw (now, (==_iff g g).1 refl, unused, key, y)

-- The release of a lease that is in use in this transaction.
release_target-IsExclusive :
    (s : Backend) (i : ℕ) (l : Lease) (k : Option ℕ)
    → l.entry ≡ k
    → l.released ≡ false
    → l.generation ≡ s.generation
    → lease_at i s.leases ≡ some l
    → IsExclusive s
    → IsExclusive (release_target (record s { leases = mark_released i s.leases }) l.gate k)
unfolding release_target
release_target-IsExclusive s i l none key unused now there h = record {
  used = λ k.
      let less = live-mark_released s.generation k i s.leases l there in
      let before = h.used k in omega arith;
  old = IsOld-mark_released s.generation i s.leases h.old;
}
release_target-IsExclusive s i l (some u) key unused now there h = record {
  used = λ k. rw (entry_of-set k u (record (entry_of u s.cache) { busy = false }) s.cache) (
      let less = live-mark_released s.generation k i s.leases l there in
      let before = h.used k in
      elim (Bool-cases (u == k)) [
        | inl y ↦ rw y (
            let one = holds-live s.generation k u l key unused now y in
            let most = flag_le_one (entry_of k s.cache).busy in unfold flag in omega arith)
        | inr n ↦ rw n (omega arith)
      ]);
  old = IsOld-mark_released s.generation i s.leases h.old;
}

release_lease_of-IsExclusive :
    (s : Backend) (i : ℕ) (l : Option Lease)
    → lease_at i s.leases ≡ l
    → is_current s l ≡ true
    → IsExclusive s
    → IsExclusive (release_lease_of s i l)
unfolding release_lease_of is_current
release_lease_of-IsExclusive s i none there now h = h
release_lease_of-IsExclusive s i (some l) there now h = elim (Bool-cases l.released) [
  | inl y ↦ rw y h
  | inr n ↦ rw n (
      release_target-IsExclusive s i l l.entry refl n ((==_iff l.generation s.generation).0 now)
        there h)
]

xact_callback-IsExclusive :
    (s : Backend) (event : XactEvent) → IsExclusive s → IsExclusive (xact_callback s event)
unfolding xact_callback
xact_callback-IsExclusive s event h = elim (Bool-cases (ends_transaction event)) [
  | inl y ↦ rw y (record {
    used = λ k. rw (live-old s.generation k s.leases h.old) (omega arith);
    old = IsOld-later s.generation s.leases h.old;
  })
  | inr n ↦ rw n h
]

Step-IsExclusive : {s t : Backend} → Step s t → IsExclusive s → IsExclusive t
Step-IsExclusive {s} (lease q) h =
    let x = (get_connection_entry s q).1 in
    unfold get_scan_connection in
    lease_entry-IsExclusive (get_connection_entry s q).0 q x x.busy (get_connection_entry s q).2
      (ap (λ (e : Entry). e.busy) (unfold get_connection_entry in find-set q.umid x s.cache))
      (get_connection_entry-IsExclusive s q h)
Step-IsExclusive {s} (version q v) h =
    unfold get_server_version in get_connection_entry-IsExclusive s q h
Step-IsExclusive {s} (release i now) h =
    unfold release_scan_connection in
    release_lease_of-IsExclusive s i (lease_at i s.leases) refl now h
Step-IsExclusive {s} (reset i) h =
    unfold release_lease in
    elim (Bool-cases (is_current s (lease_at i s.leases))) [
      | inl y ↦ rw y (
          unfold release_scan_connection in
          release_lease_of-IsExclusive s i (lease_at i s.leases) refl y h)
      | inr n ↦ rw n h
    ]
Step-IsExclusive {s} (inval id hash) h =
    unfold inval_callback in
    record { used = λ k. rw (busy-invalidate id hash k s.cache) (h.used k); old = h.old }
Step-IsExclusive {s} (xact event) h = xact_callback-IsExclusive s event h

-- Whatever happens to a backend, at any time at most one holder uses the connection of a cache
-- entry, and while one does, the entry is marked as busy; no lease is of a later transaction.
pub Reachable-IsExclusive : {s : Backend} → Reachable s → IsExclusive s
Reachable-IsExclusive start = record { used = λ k. unfold live in omega arith; old = tt }
Reachable-IsExclusive (next before step) = Step-IsExclusive step (Reachable-IsExclusive before)

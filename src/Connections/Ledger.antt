-- ===== src/Connections/Ledger.antt =====
-- What is open against what the cache and the private connections of src/connection.c hold.
mod Count
unfoldable pub use Count.*
use pg_clickhouse.Prelude.{
  ℕ, ◌+◌, ◌-◌, ◌≤◌, ◌≡◌, refl, Bool, true, false, List, [], ◌∷◌, ◌++◌, Option, none, some, ◌==◌,
  if◌then◌else◌, Result, ok, err, arith, ap, sym, ==_iff, inl, inr, Bool-cases,
}
use pg_clickhouse.Connections.{
  Conn, ConnectError, Entry, Lease, Backend, Request, find, entry_of, set, disconnect, close_if,
  reset_entry, attempt, reconnect, refresh, get_connection_entry, lease_cached, lease_private,
  lease_entry, get_scan_connection,
}
use pg_clickhouse.Options.Extract.{or_default}
use pg_clickhouse.Connections.Step.{
  lease_at, mark_released, drop_private, release_target, release_lease_of, release_scan_connection,
  is_current, release_lease, invalidate_entry, invalidate, inval_callback, close_all, settle,
  settle_all, xact_callback, get_server_version, CacheId, is_hit, XactEvent, ends_transaction, Step,
  lease, version, release, reset, inval, xact, Reachable, start, next,
}

-- An update of one entry and of what is open, which keep the balance together.
balance :
    (old now before after private o o' : ℕ)
    → ((r : ℕ) → o ≡ r + old → o' ≡ r + now)
    → old ≤ before
    → after + old ≡ before + now
    → o ≡ before + private
    → o' ≡ after + private
balance old now before after private o o' change small same e =
    let moved = change (before + private - old) (omega arith) in omega arith

get_connection_entry-IsBalanced :
    (s : Backend) (q : Request) → IsBalanced s → IsBalanced (get_connection_entry s q).0
unfolding get_connection_entry
get_connection_entry-IsBalanced s q b h =
    let x = entry_of q.umid s.cache in
    balance (held h x.gate) _ _ _ _ _ _ (λ r. count-refresh h r q x s.opened)
      (held-entry_of h q.umid s.cache) (held-set h q.umid (refresh q x s.opened).0 s.cache) (b h)

in_private-append :
    (h : ℕ) (p : List Conn) (c : Conn)
    → in_private h (p ++ c ∷ []) ≡ in_private h p + hit c.handle h
unfolding in_private
in_private-append h [] c = omega arith
in_private-append h (d ∷ p) c = let same = in_private-append h p c in omega arith

lease_private-IsBalanced :
    (s : Backend) (answer : Result ConnectError Conn)
    → IsBalanced s
    → IsBalanced (lease_private s answer).0
unfolding lease_private
lease_private-IsBalanced s (err reason) b h = b h
lease_private-IsBalanced s (ok c) b h =
    let more = in_private-append h s.private c in let now = b h in unfold count in omega arith

-- A change of an entry that keeps its connection keeps the balance.
in_cache-same :
    (h k : ℕ) (e : Entry) (cache : List (ℕ × Entry))
    → e.gate ≡ (entry_of k cache).gate
    → in_cache h (set k e cache) ≡ in_cache h cache
in_cache-same h k e cache same =
    let both = held-set h k e cache in
    let held_same : held h e.gate ≡ held h (entry_of k cache).gate = ap (held h) same in omega arith

drop_private-IsBalanced :
    (h x r : ℕ) (p : List Conn) (o : List ℕ)
    → count h o ≡ r + in_private h p
    → count h (drop_private x p o).1 ≡ r + in_private h (drop_private x p o).0
unfolding drop_private in_private
drop_private-IsBalanced h x r [] o e = e
drop_private-IsBalanced h x r (c ∷ p) o e = elim (Bool-cases (c.handle == x)) [
  | inl same ↦ rw same (let gone = count-disconnect h c.handle o in omega arith)
  | inr other ↦ rw other (
      unfold in_private in
      let rest = drop_private-IsBalanced h x (r + hit c.handle h) p o (omega arith) in omega arith)
]

release_target-IsBalanced :
    (s : Backend) (c : Conn) (k : Option ℕ) → IsBalanced s → IsBalanced (release_target s c k)
unfolding release_target
release_target-IsBalanced s c (some k) b h =
    let same = in_cache-same h k (record (entry_of k s.cache) { busy = false }) s.cache refl in
    let now = b h in omega arith
release_target-IsBalanced s c none b h =
    drop_private-IsBalanced h c.handle (in_cache h s.cache) s.private s.opened (b h)

release_lease_of-IsBalanced :
    (s : Backend) (i : ℕ) (l : Option Lease) → IsBalanced s → IsBalanced (release_lease_of s i l)
unfolding release_lease_of
release_lease_of-IsBalanced s i none b = b
release_lease_of-IsBalanced s i (some l) b = elim (Bool-cases l.released) [
  | inl e ↦ rw e b
  | inr e ↦
      rw e (
        release_target-IsBalanced (record s { leases = mark_released i s.leases }) l.gate l.entry b)
]

pub gate-invalidate_entry :
    (id : CacheId) (hash : ℕ) (g : Option Conn) (e : Entry)
    → (invalidate_entry id hash g e).gate ≡ e.gate
unfolding invalidate_entry
gate-invalidate_entry id hash none e = refl
gate-invalidate_entry id hash (some c) e = elim (Bool-cases (is_hit id hash e)) [
  | inl y ↦ rw y
  | inr n ↦ rw n
]

in_cache-invalidate :
    (h hash : ℕ) (id : CacheId) (cache : List (ℕ × Entry))
    → in_cache h (invalidate id hash cache) ≡ in_cache h cache
unfolding in_cache invalidate
in_cache-invalidate h hash id [] = refl
in_cache-invalidate h hash id ((k, e) ∷ cache) =
    let kept = ap (held h) (gate-invalidate_entry id hash e.gate e) in
    let rest = in_cache-invalidate h hash id cache in omega arith

count-close_all :
    (h r : ℕ) (p : List Conn) (o : List ℕ)
    → count h o ≡ r + in_private h p
    → count h (close_all p o) ≡ r
unfolding close_all in_private
count-close_all h r [] o e = omega arith
count-close_all h r (c ∷ p) o e =
    let gone = count-disconnect h c.handle o in
    count-close_all h r p (disconnect c.handle o) (omega arith)

count-settle :
    (h r : ℕ) (x : Entry) (g : Option Conn) (o : List ℕ)
    → x.gate ≡ g
    → count h o ≡ r + held h g
    → count h (settle x g o).1 ≡ r + held h (settle x g o).0.gate
unfolding settle
count-settle h r x none o same e = rw same e
count-settle h r x (some c) o same e = elim (Bool-cases x.invalidated) [
  | inl y ↦ rw y (unfold held in let gone = count-disconnect h c.handle o in omega arith)
  | inr n ↦ rw (n, same) e
]

count-settle_all :
    (h r : ℕ) (cache : List (ℕ × Entry)) (o : List ℕ)
    → count h o ≡ r + in_cache h cache
    → count h (settle_all cache o).1 ≡ r + in_cache h (settle_all cache o).0
unfolding settle_all in_cache
count-settle_all h r [] o e = e
count-settle_all h r ((k, x) ∷ cache) o e =
    let first = count-settle h (r + in_cache h cache) x x.gate o refl (omega arith) in
    let settled = held h (settle x x.gate o).0.gate in
    let rest = count-settle_all h (r + settled) cache (settle x x.gate o).1 (omega arith) in
    omega arith

xact_callback-IsBalanced :
    (s : Backend) (event : XactEvent) → IsBalanced s → IsBalanced (xact_callback s event)
unfolding xact_callback
xact_callback-IsBalanced s event b h = elim (Bool-cases (ends_transaction event)) [
  | inl y ↦ rw y (
      unfold in_private in
      let now = b h in
      let closed = count-close_all h (in_cache h s.cache) s.private s.opened (omega arith) in
      let settled = count-settle_all h 0 s.cache (close_all s.private s.opened) (omega arith) in
      omega arith)
  | inr n ↦ rw n (b h)
]

lease_entry-IsBalanced :
    (s : Backend) (q : Request) (x : Entry) (busy : Bool) (answer : Result ConnectError Conn)
    → x.gate ≡ (entry_of q.umid s.cache).gate
    → IsBalanced s
    → IsBalanced (lease_entry s q x busy answer).0
unfolding lease_entry
lease_entry-IsBalanced s q x busy (err reason) same b = b
lease_entry-IsBalanced s q x true (ok c) same b = lease_private-IsBalanced s q.connect_private b
lease_entry-IsBalanced s q x false (ok c) same b = λ h.
    unfold lease_cached in
    let kept = in_cache-same h q.umid (record x { busy = true }) s.cache same in
    let now = b h in omega arith

pub find-set : (k : ℕ) (e : Entry) (cache : List (ℕ × Entry)) → entry_of k (set k e cache) ≡ e
unfolding entry_of find set or_default
find-set k e [] = rw ((==_iff k k).1 refl)
find-set k e ((key, old) ∷ cache) = elim (Bool-cases (key == k)) [
  | inl y ↦ rw (y, y)
  | inr n ↦ rw (n, n) (find-set k e cache)
]

Step-IsBalanced : {s t : Backend} → Step s t → IsBalanced s → IsBalanced t
Step-IsBalanced {s} (lease q) b =
    let x = (get_connection_entry s q).1 in
    unfold get_scan_connection in
    lease_entry-IsBalanced (get_connection_entry s q).0 q x x.busy (get_connection_entry s q).2
      (ap (λ (e : Entry). e.gate) (unfold get_connection_entry in sym (find-set q.umid x s.cache)))
      (get_connection_entry-IsBalanced s q b)
Step-IsBalanced {s} (version q v) b =
    unfold get_server_version in get_connection_entry-IsBalanced s q b
Step-IsBalanced {s} (release i now) b =
    unfold release_scan_connection in release_lease_of-IsBalanced s i _ b
Step-IsBalanced {s} (reset i) b =
    unfold release_lease in
    elim (Bool-cases (is_current s (lease_at i s.leases))) [
      | inl y ↦ rw y (unfold release_scan_connection in release_lease_of-IsBalanced s i _ b)
      | inr n ↦ rw n b
    ]
Step-IsBalanced {s} (inval id hash) b =
    λ h. unfold inval_callback in rw (in_cache-invalidate h hash id s.cache) (b h)
Step-IsBalanced {s} (xact event) b = xact_callback-IsBalanced s event b

-- Whatever happens to a backend, the connections that are open are at any time exactly those that
-- its cache and its list of private connections hold, as often as they hold them, so none
-- is lost while it is open.
pub Reachable-IsBalanced :
    {s : Backend}
    → Reachable s
    → (h : ℕ) → count h s.opened ≡ in_cache h s.cache + in_private h s.private
Reachable-IsBalanced start h = unfold count in_cache in_private in refl
Reachable-IsBalanced (next before step) h = Step-IsBalanced step (Reachable-IsBalanced before) h

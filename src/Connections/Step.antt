-- ===== src/Connections/Step.antt =====
-- The rest of src/connection.c: release, the callbacks, and the steps of a backend.
use pg_clickhouse.Prelude.{
  ℕ, zero, suc, ◌+◌, ◌≡◌, Bool, true, false, ◌||◌, List, [], ◌∷◌, Option, none, some, ◌==◌,
  if◌then◌else◌, Result, ok, err,
}
use pg_clickhouse.ServerVersion.{ServerVersion}
use pg_clickhouse.Connections.{
  ConnectError, Conn, Entry, Lease, Backend, Request, entry_of, set, disconnect,
  get_connection_entry, get_scan_connection,
}

-- The lease at a place of the list, and the list with that lease marked as released.
unfoldable pub lease_at : ℕ → List Lease → Option Lease
lease_at i [] = none
lease_at zero (l ∷ leases) = some l
lease_at (suc i) (l ∷ leases) = lease_at i leases

unfoldable pub mark_released : ℕ → List Lease → List Lease
mark_released i [] = []
mark_released zero (l ∷ leases) = record l { released = true } ∷ leases
mark_released (suc i) (l ∷ leases) = l ∷ mark_released i leases

-- The search of the private connections, which closes the first with the handle.
unfoldable pub drop_private : ℕ → List Conn → List ℕ → List Conn × List ℕ
unfolding disconnect
drop_private h [] opened = ([], opened)
drop_private h (c ∷ private) opened =
    let (rest, after) = drop_private h private opened in
    if c.handle == h then (private, disconnect c.handle opened) else (c ∷ rest, after)

-- What is released behind the lease.
unfoldable pub release_target : Backend → Conn → Option ℕ → Backend
unfolding set entry_of drop_private
release_target s c (some k) = record s {
  cache = set k (record (entry_of k s.cache) { busy = false }) s.cache;
}
release_target s c none =
    let (private, opened) = drop_private c.handle s.private s.opened in
    record s { private = private; opened = opened }

unfoldable pub release_lease_of : Backend → ℕ → Option Lease → Backend
unfolding release_target mark_released
release_lease_of s i none = s
release_lease_of s i (some l) =
    if l.released
    then s
    else release_target (record s { leases = mark_released i s.leases }) l.gate l.entry

-- `chfdw_release_scan_connection` on the connection of lease `i`.
unfoldable pub release_scan_connection : Backend → ℕ → Backend
unfolding release_lease_of lease_at
release_scan_connection s i = release_lease_of s i (lease_at i s.leases)

unfoldable pub is_current : Backend → Option Lease → Bool
is_current s none = false
is_current s (some l) = l.generation == s.generation

-- `release_lease`, the callback of the memory context that holds the lease.
unfoldable pub release_lease : Backend → ℕ → Backend
unfolding is_current release_scan_connection
release_lease s i =
    let after = release_scan_connection s i in
    if is_current s (lease_at i s.leases) then after else s

pub data CacheId : Type 0 where
  foreign_server_oid user_mapping_oid : CacheId

unfoldable pub hash_hits : CacheId → ℕ → Entry → Bool
hash_hits foreign_server_oid hash e = e.server_hashvalue == hash
hash_hits user_mapping_oid hash e = e.mapping_hashvalue == hash

unfoldable pub is_hit : CacheId → ℕ → Entry → Bool
unfolding hash_hits
is_hit cacheid hash e = (hash == 0) || hash_hits cacheid hash e

unfoldable pub invalidate_entry : CacheId → ℕ → Option Conn → Entry → Entry
unfolding is_hit
invalidate_entry cacheid hash none e = e
invalidate_entry cacheid hash (some c) e =
    if is_hit cacheid hash e then record e { invalidated = true } else e

unfoldable pub invalidate : CacheId → ℕ → List (ℕ × Entry) → List (ℕ × Entry)
unfolding invalidate_entry
invalidate cacheid hash [] = []
invalidate cacheid hash ((k, e) ∷ cache) =
    (k, invalidate_entry cacheid hash e.gate e) ∷ invalidate cacheid hash cache

-- What a connection says of its server; the transport's answer is asked for only if it has the
-- method, which both have.
unfoldable pub version_of :
    (Conn → ServerVersion) → Result ConnectError Conn → Result ConnectError ServerVersion
version_of server_version (ok c) = ok (server_version c)
version_of server_version (err reason) = err reason

-- `chfdw_get_server_version`.
unfoldable pub get_server_version :
    Backend → Request → (Conn → ServerVersion) → Backend × Result ConnectError ServerVersion
unfolding version_of
get_server_version s r server_version =
    let (after, e, answer) = get_connection_entry s r in (after, version_of server_version answer)

-- `chfdw_inval_callback`.
unfoldable pub inval_callback : Backend → CacheId → ℕ → Backend
unfolding invalidate
inval_callback s cacheid hash = record s { cache = invalidate cacheid hash s.cache }

-- `XactEvent` of PostgreSQL.
pub data XactEvent : Type 0 where
  commit parallel_commit abort parallel_abort prepare : XactEvent
  pre_commit parallel_pre_commit pre_prepare : XactEvent

unfoldable pub ends_transaction : XactEvent → Bool
ends_transaction commit = true
ends_transaction parallel_commit = true
ends_transaction abort = true
ends_transaction parallel_abort = true
ends_transaction prepare = false
ends_transaction pre_commit = false
ends_transaction parallel_pre_commit = false
ends_transaction pre_prepare = false

unfoldable pub close_all : List Conn → List ℕ → List ℕ
unfolding disconnect
close_all [] opened = opened
close_all (c ∷ private) opened = close_all private (disconnect c.handle opened)

-- One entry of the cache at the end of a transaction.
unfoldable pub settle : Entry → Option Conn → List ℕ → Entry × List ℕ
unfolding disconnect
settle e none opened = (record e { busy = false }, opened)
settle e (some c) opened =
    if e.invalidated
    then (record e { gate = none; busy = false }, disconnect c.handle opened)
    else (record e { busy = false }, opened)

unfoldable pub settle_all : List (ℕ × Entry) → List ℕ → List (ℕ × Entry) × List ℕ
unfolding settle
settle_all [] opened = ([], opened)
settle_all ((k, e) ∷ cache) opened =
    let (settled, open1) = settle e e.gate opened in
    let (rest, open2) = settle_all cache open1 in ((k, settled) ∷ rest, open2)

-- `chfdw_xact_callback`.
unfoldable pub xact_callback : Backend → XactEvent → Backend
unfolding ends_transaction close_all settle_all
xact_callback s event =
    let (cache, opened) = settle_all s.cache (close_all s.private s.opened) in
    if ends_transaction event
    then record {
      cache = cache;
      private = [];
      generation = s.generation + 1;
      leases = s.leases;
      opened = opened;
    }
    else s

-- What can happen to a backend. A holder releases its connection before its transaction ends; the
-- callback of a memory context may run at any time.
pub data Step (s : Backend) : Backend → Type 0 where
  lease : (r : Request) → Step s (get_scan_connection s r).0
  version :
      (r : Request) (server_version : Conn → ServerVersion)
      → Step s (get_server_version s r server_version).0
  release :
      (i : ℕ) → is_current s (lease_at i s.leases) ≡ true → Step s (release_scan_connection s i)
  reset : (i : ℕ) → Step s (release_lease s i)
  inval : (cacheid : CacheId) (hash : ℕ) → Step s (inval_callback s cacheid hash)
  xact : (event : XactEvent) → Step s (xact_callback s event)

abbrev pub initial : Backend
initial = record { cache = []; private = []; generation = 0; leases = []; opened = [] }

pub data Reachable : Backend → Type 0 where
  start : Reachable initial
  next : {s t : Backend} → Reachable s → Step s t → Reachable t

-- ===== src/Connections.antt =====
-- src/connection.c: the cache of connections, the leases on them, and the callbacks at an
-- invalidation and at the end of a transaction. `conn` pointers are numbers.
pub mod Connect
pub mod Step
pub mod Ledger
pub mod Exclusive
pub mod Settled
pub mod Serves
use pg_clickhouse.Prelude.{
  ℕ, ◌+◌, Bool, true, false, not, ◌&&◌, ◌||◌, List, [], ◌∷◌, ◌++◌, Option, none, some, ◌==◌,
  if◌then◌else◌, length, Result, ok, err,
}
use pg_clickhouse.Options.Extract.{or_default}

-- The transport whose methods a connection has.
pub data Driver : Type 0 where
  http binary : Driver

-- `ch_connection` with a `conn` that is not NULL.
pub record Conn : Type 0 where
  pub driver : Driver
  pub handle : ℕ

-- The errors of `clickhouse_connect`.
pub data ConnectError : Type 0 where
  invalid_driver connection_failed : ConnectError

-- `ConnCacheEntry`; `gate` is `none` where `gate.conn` is NULL.
pub record Entry : Type 0 where
  pub gate : Option Conn
  pub busy : Bool
  pub invalidated : Bool
  pub server_hashvalue : ℕ
  pub mapping_hashvalue : ℕ

-- `ch_lease`; `entry` is the key of the cache entry, `none` for a private connection.
pub record Lease : Type 0 where
  pub gate : Conn
  pub entry : Option ℕ
  pub generation : ℕ
  pub released : Bool

-- The globals of the file and every lease that was taken, in order. `opened` is what the transports
-- have connected and not disconnected.
pub record Backend : Type 0 where
  pub cache : List (ℕ × Entry)
  pub private : List Conn
  pub generation : ℕ
  pub leases : List Lease
  pub opened : List ℕ

-- What a call takes from outside: the user mapping, the hash values of the system cache, what
-- `is_broken` of the binary driver answers now, and what `clickhouse_connect` answers if it is
-- called for the cache and for a private connection.
pub record Request : Type 0 where
  pub umid : ℕ
  pub server_hashvalue : ℕ
  pub mapping_hashvalue : ℕ
  pub binary_is_broken : ℕ → Bool
  pub connect : Result ConnectError Conn
  pub connect_private : Result ConnectError Conn

unfoldable pub find : ℕ → List (ℕ × Entry) → Option Entry
find k [] = none
find k ((key, e) ∷ cache) = if key == k then some e else find k cache

-- A new entry; its last three fields are set before they are read.
abbrev pub new_entry : Entry
new_entry = record {
  gate = none;
  busy = false;
  invalidated = false;
  server_hashvalue = 0;
  mapping_hashvalue = 0;
}

-- The entry of a key after a change, which `HASH_ENTER` adds if it is not there.
unfoldable pub set : ℕ → Entry → List (ℕ × Entry) → List (ℕ × Entry)
set k e [] = (k, e) ∷ []
set k e ((key, old) ∷ cache) =
    let rest = set k e cache in if key == k then (key, e) ∷ cache else (key, old) ∷ rest

-- The effect of `methods->disconnect` on what is open.
unfoldable pub disconnect : ℕ → List ℕ → List ℕ
disconnect h [] = []
disconnect h (o ∷ opened) = let rest = disconnect h opened in if o == h then opened else o ∷ rest

-- The connection is closed if there is one and the test holds.
unfoldable pub close_if : (Conn → Bool) → Option Conn → List ℕ → Option Conn × List ℕ
unfolding disconnect
close_if test none opened = (none, opened)
close_if test (some c) opened =
    if test c then (none, disconnect c.handle opened) else (some c, opened)

unfoldable pub is_broken : (ℕ → Bool) → Conn → Bool
is_broken binary_is_broken c = elim c.driver [ http ↦ false | binary ↦ binary_is_broken c.handle ]

-- The entry with its transient fields reset.
unfoldable pub reset_entry : Request → Entry → Entry
reset_entry r e = record {
  gate = none;
  busy = e.busy;
  invalidated = false;
  server_hashvalue = r.server_hashvalue;
  mapping_hashvalue = r.mapping_hashvalue;
}

unfoldable pub attempt :
    Entry → List ℕ → Result ConnectError Conn → Entry × List ℕ × Result ConnectError Conn
attempt e opened (ok c) = (record e { gate = some c }, c.handle ∷ opened, ok c)
attempt e opened (err reason) = (e, opened, err reason)

-- A connection is made if there is none.
unfoldable pub reconnect :
    Request → Entry → Option Conn → List ℕ → Entry × List ℕ × Result ConnectError Conn
unfolding attempt reset_entry
reconnect r e (some c) opened = (record e { gate = some c }, opened, ok c)
reconnect r e none opened = attempt (reset_entry r e) opened r.connect

-- The two tests that close a connection, then the reconnection.
unfoldable pub refresh : Request → Entry → List ℕ → Entry × List ℕ × Result ConnectError Conn
unfolding close_if is_broken reconnect
refresh r e opened =
    let (kept, open1) = close_if (λ c. e.invalidated && not e.busy) e.gate opened in
    let (sound, open2) = close_if (λ c. not e.busy && is_broken r.binary_is_broken c) kept open1 in
    reconnect r e sound open2

unfoldable pub entry_of : ℕ → List (ℕ × Entry) → Entry
unfolding find or_default
entry_of k cache = or_default new_entry (find k cache)

-- `get_connection_entry`. An error leaves an entry without a connection.
unfoldable pub get_connection_entry : Backend → Request → Backend × Entry × Result ConnectError Conn
unfolding entry_of refresh set
get_connection_entry s r =
    let (e, opened, answer) = refresh r (entry_of r.umid s.cache) s.opened in
    (record s { cache = set r.umid e s.cache; opened = opened }, e, answer)

-- A lease on the connection of an entry that is not busy.
unfoldable pub lease_cached : Backend → Request → Entry → Conn → Backend
unfolding set
lease_cached s r e c = record s {
  cache = set r.umid (record e { busy = true }) s.cache;
  leases =
      record { gate = c; entry = some r.umid; generation = s.generation; released = false }
      ∷ s.leases;
}

-- A lease on a connection of its own.
unfoldable pub lease_private :
    Backend → Result ConnectError Conn → Backend × Result ConnectError Conn
lease_private s (err reason) = (s, err reason)
lease_private s (ok c) = (
  record s {
    private = s.private ++ c ∷ [];
    opened = c.handle ∷ s.opened;
    leases =
        record { gate = c; entry = none; generation = s.generation; released = false } ∷ s.leases;
  },
  ok c,
)

unfoldable pub lease_entry :
    Backend → Request → Entry → Bool → Result ConnectError Conn → Backend × Result ConnectError Conn
unfolding lease_cached lease_private
lease_entry s r e busy (err reason) = (s, err reason)
lease_entry s r e false (ok c) = (lease_cached s r e c, ok c)
lease_entry s r e true (ok c) = lease_private s r.connect_private

-- `chfdw_get_scan_connection`.
unfoldable pub get_scan_connection : Backend → Request → Backend × Result ConnectError Conn
unfolding get_connection_entry lease_entry
get_scan_connection s r =
    let (s1, e, answer) = get_connection_entry s r in lease_entry s1 r e e.busy answer

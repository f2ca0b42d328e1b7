-- ===== src/Examples/Serving.antt =====
-- Runs of the connection cache, and its theorems at what they reach.
use pg_clickhouse.Prelude.{◌+◌, ◌≡◌, refl, false, [], ◌∷◌, some, ok}
use pg_clickhouse.Connections.{
  Driver, Lease, Backend, Request, entry_of, get_scan_connection, get_connection_entry, refresh,
  set, find, close_if, is_broken, lease_cached, lease_entry,
}
use pg_clickhouse.Options.Extract.{or_default}
use pg_clickhouse.Connections.Step.{
  lease_at, CacheId, initial, inval_callback, XactEvent, xact_callback, Reachable, start, next,
  lease, inval,
}
use pg_clickhouse.Connections.Ledger.{count, in_cache, in_private, Reachable-IsBalanced}
use pg_clickhouse.Connections.Exclusive.{holds, IsExclusive, Reachable-IsExclusive}
use pg_clickhouse.Connections.Serves.{gate-lease_at}

-- A request that gets connection 7 for the cache, or 8 for itself.
abbrev request : Request
request = record {
  umid = 1;
  server_hashvalue = 20;
  mapping_hashvalue = 30;
  binary_is_broken = λ h. false;
  connect = ok (record { driver = Driver.binary; handle = 7 });
  connect_private = ok (record { driver = Driver.binary; handle = 8 });
}

-- Two scans at a time, and a change of the server.
abbrev one_scan : Backend
one_scan = (get_scan_connection initial request).0

abbrev two_scans : Backend
two_scans = (get_scan_connection one_scan request).0

abbrev altered : Backend
altered = inval_callback two_scans CacheId.foreign_server_oid 20

reached : Reachable altered
reached =
    next (next (next start (lease request)) (lease request)) (inval CacheId.foreign_server_oid 20)

two_opened : altered.opened ≡ 8 ∷ 7 ∷ []
unfolding inval_callback get_scan_connection get_connection_entry lease_entry refresh close_if set
    entry_of find or_default lease_cached is_broken
two_opened = refl

all_closed : (xact_callback altered XactEvent.commit).opened ≡ []
unfolding xact_callback inval_callback get_scan_connection get_connection_entry lease_entry refresh
    close_if set entry_of find or_default lease_cached is_broken
all_closed = refl

Reachable-IsBalanced_example :
    count 7 altered.opened ≡ in_cache 7 altered.cache + in_private 7 altered.private
Reachable-IsBalanced_example = Reachable-IsBalanced {s = altered} reached 7

Reachable-IsExclusive_example : IsExclusive altered
Reachable-IsExclusive_example = Reachable-IsExclusive {s = altered} reached

-- The lease on the cached connection, the older of the two.
abbrev first_lease : Lease
first_lease = record {
  gate = record { driver = Driver.binary; handle = 7 };
  entry = some 1;
  generation = 0;
  released = false;
}

first_there : lease_at 1 altered.leases ≡ some first_lease
unfolding lease_at inval_callback get_scan_connection get_connection_entry lease_entry refresh
    close_if set entry_of find or_default lease_cached is_broken
first_there = refl

first_holds : holds altered.generation 1 first_lease ≡ 1
unfolding holds inval_callback get_scan_connection get_connection_entry lease_entry refresh close_if
    set entry_of find or_default lease_cached is_broken
first_holds = refl

gate-lease_at_example : (entry_of 1 altered.cache).gate ≡ some first_lease.gate
gate-lease_at_example = gate-lease_at {s = altered} 1 1 first_lease reached first_there first_holds

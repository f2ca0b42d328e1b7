-- ===== src/Connections/Exclusive/Live.antt =====
-- Counts of leases in use, in src/connection.c.
use pg_clickhouse.Prelude.{
  ℕ, zero, suc, ◌+◌, ◌≤◌, ◌≡◌, refl, ap, ◌∙◌, Bool, true, false, not, ◌&&◌, List, [], ◌∷◌, Option,
  none, some, ◌==◌, ==_iff, if◌then◌else◌, Result, ok, err, arith, All, inl, inr, Bool-cases,
}
use pg_clickhouse.Connections.{
  Conn, ConnectError, Entry, Lease, Backend, Request, find, entry_of, set, attempt, reset_entry,
  reconnect, refresh,
}
use pg_clickhouse.Options.Extract.{or_default}
use pg_clickhouse.Connections.Step.{
  lease_at, mark_released, CacheId, is_hit, invalidate_entry, invalidate,
}

unfoldable pub flag : Bool → ℕ
flag true = 1
flag false = 0

unfoldable pub is_key : ℕ → Option ℕ → Bool
is_key k none = false
is_key k (some j) = j == k

-- Whether a lease is in use in a transaction, on the entry of a key.
unfoldable pub holds : ℕ → ℕ → Lease → ℕ
unfolding flag is_key
holds g k l = flag ((l.generation == g) && not l.released && is_key k l.entry)

-- How many leases are in use on the entry of a key.
unfoldable pub live : ℕ → ℕ → List Lease → ℕ
unfolding holds
live g k [] = 0
live g k (l ∷ leases) = holds g k l + live g k leases

abbrev pub IsOld : ℕ → Lease → Type 0
IsOld g l = l.generation ≤ g

-- A connection of the cache that is in use is marked as busy, and used once.
pub record IsExclusive (s : Backend) : Type 0 where
  pub used : (k : ℕ) → live s.generation k s.leases ≤ flag (entry_of k s.cache).busy
  pub old : All (IsOld s.generation) s.leases

pub entry_of-set :
    (j k : ℕ) (e : Entry) (cache : List (ℕ × Entry))
    → entry_of j (set k e cache) ≡ (if k == j then e else entry_of j cache)
unfolding entry_of find set or_default
entry_of-set j k e [] = ground arith
entry_of-set j k e ((key, old) ∷ cache) = ground (arith, entry_of-set j k e cache)

pub busy-attempt :
    (x : Entry) (o : List ℕ) (answer : Result ConnectError Conn)
    → (attempt x o answer).0.busy ≡ x.busy
unfolding attempt
busy-attempt x o (ok c) = refl
busy-attempt x o (err reason) = refl

pub busy-reconnect :
    (r : Request) (x : Entry) (g : Option Conn) (o : List ℕ) → (reconnect r x g o).0.busy ≡ x.busy
unfolding reconnect reset_entry
busy-reconnect r x (some c) o = refl
busy-reconnect r x none o = busy-attempt (reset_entry r x) o r.connect

pub busy-refresh : (r : Request) (x : Entry) (o : List ℕ) → (refresh r x o).0.busy ≡ x.busy
unfolding refresh
busy-refresh r x o = busy-reconnect r x _ _

pub holds-released : (g k : ℕ) (l : Lease) → holds g k (record l { released = true }) ≡ 0
unfolding holds flag
holds-released g k l = elim (Bool-cases (l.generation == g)) [ inl y ↦ rw y | inr n ↦ rw n ]

pub live-mark_released :
    (g k i : ℕ) (ls : List Lease) (l : Lease)
    → lease_at i ls ≡ some l
    → live g k (mark_released i ls) + holds g k l ≡ live g k ls
unfolding live mark_released lease_at
live-mark_released g k i [] l e = cc
live-mark_released g k zero (x ∷ ls) l e =
    let gone = holds-released g k x in
    let same : x ≡ l = cc in
    let held : holds g k x ≡ holds g k l = ap (holds g k) same in omega arith
live-mark_released g k (suc i) (x ∷ ls) l e =
    let rest = live-mark_released g k i ls l e in omega arith

pub live-old : (g k : ℕ) (ls : List Lease) → All (IsOld g) ls → live (g + 1) k ls ≡ 0
unfolding live holds
live-old g k [] h = refl
live-old g k (l ∷ ls) (h, t) =
    let n : (l.generation == g + 1) ≡ false = ground arith in
    rw n (unfold flag in let rest = live-old g k ls t in omega arith)

pub busy-invalidate_entry :
    (id : CacheId) (hash : ℕ) (g : Option Conn) (e : Entry)
    → (invalidate_entry id hash g e).busy ≡ e.busy
unfolding invalidate_entry
busy-invalidate_entry id hash none e = refl
busy-invalidate_entry id hash (some c) e = elim (Bool-cases (is_hit id hash e)) [
  | inl y ↦ rw y
  | inr n ↦ rw n
]

pub busy-invalidate :
    (id : CacheId) (hash k : ℕ) (cache : List (ℕ × Entry))
    → (entry_of k (invalidate id hash cache)).busy ≡ (entry_of k cache).busy
unfolding entry_of find or_default invalidate
busy-invalidate id hash k [] = refl
busy-invalidate id hash k ((key, e) ∷ cache) =
    ground (arith, busy-invalidate id hash k cache, busy-invalidate_entry id hash e.gate e)

pub busy-set :
    (k u : ℕ) (e : Entry) (cache : List (ℕ × Entry))
    → e.busy ≡ (entry_of u cache).busy
    → (entry_of k (set u e cache)).busy ≡ (entry_of k cache).busy
busy-set k u e cache same = elim (Bool-cases (u == k)) [
  | inl y ↦
      rw (entry_of-set k u e cache, y) (same ∙ ap (λ j. (entry_of j cache).busy) ((==_iff u k).0 y))
  | inr n ↦ rw (entry_of-set k u e cache, n)
]

-- ===== src/Connections/Serves/Keeps.antt =====
-- Changes of the cache of src/connection.c that keep the connections that are busy.
use pg_clickhouse.Prelude.{
  ℕ, ◌+◌, ◌≤◌, ◌≡◌, refl, ap, sym, subst, ◌∙◌, Bool, true, false, not, ◌&&◌, List, [], ◌∷◌, Option,
  none, some, ◌==◌, ==_iff, if◌then◌else◌, Result, ok, err, arith, All, inl, inr, Bool-cases,
}
use pg_clickhouse.Connections.{
  Conn, ConnectError, Entry, Lease, Request, find, entry_of, set, is_broken, close_if, attempt,
  reset_entry, reconnect, refresh,
}
use pg_clickhouse.Connections.Step.{CacheId, invalidate}
use pg_clickhouse.Options.Extract.{or_default}
use pg_clickhouse.Connections.Ledger.{gate-invalidate_entry}
use pg_clickhouse.Connections.Exclusive.{flag, holds, is_key, live, entry_of-set}

abbrev pub gate_at : ℕ → List (ℕ × Entry) → Option Conn
gate_at k cache = (entry_of k cache).gate

-- A lease that is in use holds the connection of its entry.
abbrev pub Serves : ℕ → List (ℕ × Entry) → Lease → Type 0
Serves g cache l = (k : ℕ) → holds g k l ≡ 1 → gate_at k cache ≡ some l.gate

-- A change of the cache that keeps the connections that are busy.
abbrev pub Keeps : List (ℕ × Entry) → List (ℕ × Entry) → Type 0
Keeps before after =
    (k : ℕ) (c : Conn)
    → (entry_of k before).busy ≡ true
    → gate_at k before ≡ some c
    → gate_at k after ≡ some c

pub flag-true : (b : Bool) (n : ℕ) → n + 1 ≤ flag b → b ≡ true
unfolding flag
flag-true true n h = refl
flag-true false n h = absurd (omega arith)

pub Keeps-All :
    (g : ℕ) (before after : List (ℕ × Entry)) (ls : List Lease)
    → Keeps before after
    → ((k : ℕ) → live g k ls ≤ flag (entry_of k before).busy)
    → All (Serves g before) ls
    → All (Serves g after) ls
unfolding live
Keeps-All g before after [] keeps used h = tt
Keeps-All g before after (l ∷ ls) keeps used (h, t) = (
  (λ k one.
      keeps k l.gate (flag-true _ (live g k ls) (let most = used k in omega arith)) (h k one)),
  Keeps-All g before after ls keeps (λ k. let most = used k in omega arith) t,
)

pub close_if-keep :
    (test : Conn → Bool) (g : Option Conn) (o : List ℕ) (c : Conn)
    → g ≡ some c
    → test c ≡ false
    → (close_if test g o).0 ≡ some c
unfolding close_if
close_if-keep test g o c same h = rw (same, h) refl

pub reconnect-some :
    (r : Request) (x : Entry) (g : Option Conn) (o : List ℕ) (c : Conn)
    → g ≡ some c
    → (reconnect r x g o).0.gate ≡ some c
unfolding reconnect
reconnect-some r x none o c h = cc
reconnect-some r x (some d) o c h = h

pub and-false : (b : Bool) → (b && false) ≡ false
and-false true = refl
and-false false = refl

pub refresh-busy :
    (r : Request) (x : Entry) (o : List ℕ) (c : Conn)
    → x.busy ≡ true
    → x.gate ≡ some c
    → (refresh r x o).0.gate ≡ some c
unfolding refresh
refresh-busy r x o c busy gate = reconnect-some r x _ _ c (
    close_if-keep (λ d. not x.busy && is_broken r.binary_is_broken d) _ _ c
      (close_if-keep (λ d. x.invalidated && not x.busy) x.gate o c gate
        (rw busy (and-false x.invalidated)))
      (rw busy refl))

pub attempt-ok :
    (x : Entry) (o : List ℕ) (answer : Result ConnectError Conn) (c : Conn)
    → (attempt x o answer).2 ≡ ok c
    → (attempt x o answer).0.gate ≡ some c
unfolding attempt
attempt-ok x o (ok d) c h = cc
attempt-ok x o (err reason) c h = cc

pub reconnect-ok :
    (r : Request) (x : Entry) (g : Option Conn) (o : List ℕ) (c : Conn)
    → (reconnect r x g o).2 ≡ ok c
    → (reconnect r x g o).0.gate ≡ some c
unfolding reconnect
reconnect-ok r x none o c h = attempt-ok (reset_entry r x) o r.connect c h
reconnect-ok r x (some d) o c h = cc

-- Setting an entry keeps the busy connections if it keeps its own.
pub set-Keeps :
    (u : ℕ) (e : Entry) (cache : List (ℕ × Entry))
    → ((c : Conn) → (entry_of u cache).busy ≡ true → gate_at u cache ≡ some c → e.gate ≡ some c)
    → Keeps cache (set u e cache)
set-Keeps u e cache own k c busy gate =
    let now : gate_at k (set u e cache) ≡ (if u == k then e else entry_of k cache).gate =
      ap (λ (x : Entry). x.gate) (entry_of-set k u e cache) in
    now ∙ elim (Bool-cases (u == k)) [
      | inl y ↦
          let same : u ≡ k = (==_iff u k).0 y in
          rw y (
            own c (subst (λ j. (entry_of j cache).busy ≡ true) (sym same) busy)
              (subst (λ j. gate_at j cache ≡ some c) (sym same) gate))
      | inr n ↦ rw n gate
    ]

pub gate-invalidate :
    (id : CacheId) (hash k : ℕ) (cache : List (ℕ × Entry))
    → gate_at k (invalidate id hash cache) ≡ gate_at k cache
unfolding entry_of find or_default invalidate
gate-invalidate id hash k [] = refl
gate-invalidate id hash k ((key, e) ∷ cache) =
    ground (arith, gate-invalidate id hash k cache, gate-invalidate_entry id hash e.gate e)

pub invalidate-Keeps :
    (id : CacheId) (hash : ℕ) (cache : List (ℕ × Entry)) → Keeps cache (invalidate id hash cache)
invalidate-Keeps id hash cache k c busy gate = gate-invalidate id hash k cache ∙ gate

pub holds-off : (g k : ℕ) (l : Lease) → is_key k l.entry ≡ false → holds g k l ≡ 0
unfolding holds flag
holds-off g k l h = elim (Bool-cases (l.generation == g)) [
  | inl y ↦ elim (Bool-cases l.released) [ inl a ↦ rw (y, a) refl | inr b ↦ rw (y, b, h) refl ]
  | inr n ↦ rw n refl
]

pub not-both : {n : ℕ} → n ≡ 0 → n ≡ 1 → ⊥
not-both = λ a b. omega arith

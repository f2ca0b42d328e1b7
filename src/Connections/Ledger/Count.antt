-- ===== src/Connections/Ledger/Count.antt =====
-- Counts of connections: what the steps of src/connection.c open and close.
use pg_clickhouse.Prelude.{
  ℕ, ◌+◌, ◌-◌, ◌≤◌, ◌≡◌, refl, Bool, List, [], ◌∷◌, Option, none, some, ◌==◌, if◌then◌else◌, Result,
  ok, err, arith,
}
use pg_clickhouse.Connections.{
  Conn, ConnectError, Entry, Backend, Request, find, entry_of, set, disconnect, close_if,
  reset_entry, attempt, reconnect, refresh,
}
use pg_clickhouse.Options.Extract.{or_default}

-- One if the numbers are the same.
unfoldable pub hit : ℕ → ℕ → ℕ
hit x h = if x == h then 1 else 0

unfoldable pub count : ℕ → List ℕ → ℕ
unfolding hit
count h [] = 0
count h (o ∷ opened) = hit o h + count h opened

unfoldable pub held : ℕ → Option Conn → ℕ
unfolding hit
held h none = 0
held h (some c) = hit c.handle h

unfoldable pub in_cache : ℕ → List (ℕ × Entry) → ℕ
unfolding held
in_cache h [] = 0
in_cache h ((k, e) ∷ cache) = held h e.gate + in_cache h cache

unfoldable pub in_private : ℕ → List Conn → ℕ
unfolding hit
in_private h [] = 0
in_private h (c ∷ private) = hit c.handle h + in_private h private

-- Every handle is open as often as it is held.
abbrev pub IsBalanced : Backend → Type 0
IsBalanced s = (h : ℕ) → count h s.opened ≡ in_cache h s.cache + in_private h s.private

pub count-disconnect : (h x : ℕ) (o : List ℕ) → count h (disconnect x o) ≡ count h o - hit x h
unfolding count disconnect hit
count-disconnect h x [] = ground arith
count-disconnect h x (y ∷ o) = ground (arith, count-disconnect h x o)

pub held-set :
    (h k : ℕ) (e : Entry) (cache : List (ℕ × Entry))
    → in_cache h (set k e cache) + held h (entry_of k cache).gate ≡ in_cache h cache + held h e.gate
unfolding in_cache set entry_of find or_default
held-set h k e [] = unfold held in omega arith
held-set h k e ((key, old) ∷ cache) = ground (arith, held-set h k e cache)

pub held-entry_of :
    (h k : ℕ) (cache : List (ℕ × Entry)) → held h (entry_of k cache).gate ≤ in_cache h cache
unfolding in_cache entry_of find or_default
held-entry_of h k [] = unfold held in omega arith
held-entry_of h k ((key, old) ∷ cache) = ground (arith, held-entry_of h k cache)

pub count-close_if :
    (h r : ℕ) (test : Conn → Bool) (g : Option Conn) (o : List ℕ)
    → count h o ≡ r + held h g
    → count h (close_if test g o).1 ≡ r + held h (close_if test g o).0
unfolding close_if held
count-close_if h r test none o e = e
count-close_if h r test (some c) o e = ground (arith, count-disconnect h c.handle o)

pub count-attempt :
    (h r : ℕ) (x : Entry) (o : List ℕ) (answer : Result ConnectError Conn)
    → x.gate ≡ none
    → count h o ≡ r
    → count h (attempt x o answer).1 ≡ r + held h (attempt x o answer).0.gate
unfolding attempt held count
count-attempt h r x o (ok c) g e = omega arith
count-attempt h r x o (err reason) g e = rw g (omega arith)

pub balance_none : (h : ℕ) (o : List ℕ) {r : ℕ} → count h o ≡ r + held h none → count h o ≡ r
unfolding held
balance_none h o e = omega arith

pub count-reconnect :
    (h r : ℕ) (q : Request) (x : Entry) (g : Option Conn) (o : List ℕ)
    → count h o ≡ r + held h g
    → count h (reconnect q x g o).1 ≡ r + held h (reconnect q x g o).0.gate
unfolding reconnect
count-reconnect h r q x (some c) o e = e
count-reconnect h r q x none o e =
    count-attempt h r (reset_entry q x) o q.connect (unfold reset_entry in refl)
      (balance_none h o e)

pub count-refresh :
    (h r : ℕ) (q : Request) (x : Entry) (o : List ℕ)
    → count h o ≡ r + held h x.gate
    → count h (refresh q x o).1 ≡ r + held h (refresh q x o).0.gate
unfolding refresh
count-refresh h r q x o e =
    count-reconnect h r q x _ _ (count-close_if h r _ _ _ (count-close_if h r _ x.gate o e))

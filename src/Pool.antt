-- ===== src/Pool.antt =====
-- src/pool.rs: the pool of pending transactions, ordered by their hashes. All clones of a pool
-- share the map, which is the state here, and beside it, where it is used, the
-- state of the provider.
pub mod Adding
pub mod Batches
pub mod Contents
pub mod Invariant
use simb.Prelude.{
  ℕ, zero, suc, List, [], ◌∷◌, ◌++◌, map, Option, none, some, Bool, true, false, Str, str_eq, ◌||◌,
  if◌then◌else◌,
}
use simb.Prelude.Exec.{Exec, pure, on_second, ◌>>=◌}
use simb.Prelude.Result.{ok}
use simb.Prelude.BTreeMap
use simb.Prelude.BTreeMap.{BTreeMap}
use simb.Prelude.Order.{str_ord}
use simb.Interface.{Transaction, Failures, RequestError}
use simb.Interface.Providers.{BroadcastProvider}

abbrev pub Pool : Type 0
Pool = BTreeMap Str Transaction

abbrev pub new : Pool
new = []

abbrev pub is_none : Option Transaction → Bool
is_none none = true
is_none (some tx) = false

-- The loop of `add_transactions`, with the hashes added so far.
unfoldable pub add_loop : List Transaction → List Str → Pool → List Str × Pool
add_loop [] added pool = (added, pool)
add_loop (tx ∷ txs) added pool =
    let (old, pool') = BTreeMap.insert tx.hash tx pool in
    add_loop txs (if is_none old then added ++ tx.hash ∷ [] else added) pool'

unfoldable pub add_transactions : List Transaction → Pool → List Str × Pool
unfolding add_loop
add_transactions txs pool = add_loop txs [] pool

unfoldable pub add_transaction : Transaction → Pool → Option Str × Pool
add_transaction tx pool =
    let (old, pool') = BTreeMap.insert tx.hash tx pool in
    (if is_none old then some tx.hash else none, pool')

unfoldable pub contains : List Str → Str → Bool
contains [] s = false
contains (t ∷ ts) s = str_eq t s || contains ts s

-- `into_iter().filter(|tx| added_hashes.contains(&tx.hash)).collect()`
unfoldable pub only_added : List Str → List Transaction → List Transaction
unfolding contains
only_added added [] = []
only_added added (tx ∷ txs) =
    let rest = only_added added txs in if contains added tx.hash then tx ∷ rest else rest

-- `PoolTx::add_transactions`, which never fails, beside the provider.
abbrev add_to_pool :
    {F : Failures} {P : Type 0} → List Transaction → Exec (Pool × P) (RequestError F) (List Str)
add_to_pool txs s = let (added, pool) = add_transactions txs s.0 in (ok added, (pool, s.1))

unfoldable pub add_transactions_and_broadcast :
    {F : Failures} {P : Type 0}
    → BroadcastProvider F P
    → List Transaction
    → Exec (Pool × P) (RequestError F) (List Str)
add_transactions_and_broadcast provider txs = do
  added_hashes ← add_to_pool txs
  sent ← on_second (provider.broadcast_transactions (only_added added_hashes txs))
  pure added_hashes

unfoldable pub get_all : Pool → List Transaction
get_all pool = map (λ e. e.1) pool

-- `Iterator::next`
unfoldable pub next : Pool → Option Transaction × Pool
unfolding BTreeMap.pop_first
next pool =
    let (first, pool') = BTreeMap.pop_first pool in
    (elim first [ none ↦ none | some e ↦ some e.1 ], pool')

-- `for tx in pool`, for at most so many rounds.
unfoldable pub drain : ℕ → Pool → List Transaction × Pool
unfolding next
drain zero pool = ([], pool)
drain (suc fuel) pool =
    let (tx, pool') = next pool in
    let rest = drain fuel pool' in elim tx [ none ↦ ([], pool') | some t ↦ (t ∷ rest.0, rest.1) ]

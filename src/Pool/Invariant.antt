-- ===== src/Pool/Invariant.antt =====
-- src/pool.rs: the order of the pool and the keys of its transactions.
use Prim.Native.Nat.{Ordering}
use simb.Prelude.{ℕ, zero, suc, ◌≤◌, ◌≡◌, refl, List, [], ◌∷◌, arith, Str, All, length}
use simb.Prelude.BTreeMap
use simb.Prelude.BTreeMap.{IsAbove, IsSorted, put-IsSorted}
use simb.Prelude.Order.{str_ord, str_cmp, str_cmp-eq}
use simb.Interface.{Transaction}
use simb.Pool.{Pool, add_loop, add_transactions, add_transaction, next, get_all, drain}

pub record IsPool (pool : Pool) : Type 0 where
  pub sorted : IsSorted pool
  pub keyed : All (λ e. e.0 ≡ e.1.hash) pool

keyed-put :
    (tx : Transaction) (pool : Pool)
    → All (λ e. e.0 ≡ e.1.hash) pool
    → All (λ e. e.0 ≡ e.1.hash) (BTreeMap.put tx.hash tx pool)
unfolding BTreeMap.put
keyed-put tx [] a = (refl, tt)
keyed-put tx ((j, t) ∷ pool) a = ground (arith, keyed-put tx pool a.1, str_cmp-eq tx.hash j)

put-IsPool : (tx : Transaction) (pool : Pool) → IsPool pool → IsPool (BTreeMap.put tx.hash tx pool)
put-IsPool tx pool p = record {
  sorted = put-IsSorted tx.hash tx pool p.sorted;
  keyed = keyed-put tx pool p.keyed;
}

add_loop-IsPool :
    (txs : List Transaction) (added : List Str) (pool : Pool)
    → IsPool pool
    → IsPool (add_loop txs added pool).1
unfolding add_loop
add_loop-IsPool [] added pool p = p
add_loop-IsPool (tx ∷ txs) added pool p =
    add_loop-IsPool txs _ (BTreeMap.put tx.hash tx pool) (put-IsPool tx pool p)

pub add_transactions-IsPool :
    (txs : List Transaction) (pool : Pool) → IsPool pool → IsPool (add_transactions txs pool).1
unfolding add_transactions
add_transactions-IsPool txs pool p = add_loop-IsPool txs [] pool p

next-IsPool : (pool : Pool) → IsPool pool → IsPool (next pool).1
unfolding next
next-IsPool [] p = p
next-IsPool (e ∷ pool) p = record { sorted = p.sorted.1; keyed = p.keyed.1 }

-- Adding one transaction, adding a batch and taking the next transaction keep a pool in the order
-- of the hashes, with each transaction under its own hash, as it was before.
pub pool_operations-IsPool :
    (pool : Pool) (tx : Transaction) (txs : List Transaction)
    → IsPool pool
    → IsPool (add_transaction tx pool).1
      × IsPool (add_transactions txs pool).1
      × IsPool (next pool).1
unfolding add_transaction
pool_operations-IsPool pool tx txs p =
    (put-IsPool tx pool p, add_transactions-IsPool txs pool p, next-IsPool pool p)

-- Each hash is above the ones before it.
abbrev pub Rises : List Transaction → Type 0
Rises [] = Unit
Rises (tx ∷ txs) = All (λ later. str_cmp tx.hash later.hash ≡ Ordering.lt) txs × Rises txs

get_all-above :
    (k : Str) (pool : Pool)
    → IsAbove k pool
    → All (λ e. e.0 ≡ e.1.hash) pool
    → All (λ later. str_cmp k later.hash ≡ Ordering.lt) (get_all pool)
unfolding get_all
get_all-above k [] a keyed = tt
get_all-above k ((j, t) ∷ pool) a keyed = (ground arith, get_all-above k pool a.1 keyed.1)

get_all-Rises : (pool : Pool) → IsPool pool → Rises (get_all pool)
unfolding get_all
get_all-Rises [] p = tt
get_all-Rises ((j, t) ∷ pool) p = (
  rw (← p.keyed.0) (get_all-above j pool p.sorted.0 p.keyed.1),
  get_all-Rises pool (record { sorted = p.sorted.1; keyed = p.keyed.1 }),
)

drain-get_all : (fuel : ℕ) (pool : Pool) → length pool ≤ fuel → drain fuel pool ≡ (get_all pool, [])
unfolding drain get_all
drain-get_all zero [] h = refl
drain-get_all zero (e ∷ pool) h = absurd (omega arith)
drain-get_all (suc fuel) [] h = refl
drain-get_all (suc fuel) (e ∷ pool) h = ground (arith, drain-get_all fuel pool (omega arith))

-- From a pool in order, taking transactions one by one, with as many rounds as the pool has entries
-- or more, yields what `get_all` shows, by rising hashes, and leaves the pool empty.
pub drain_lem :
    (fuel : ℕ) (pool : Pool)
    → IsPool pool
    → length pool ≤ fuel
    → (drain fuel pool ≡ (get_all pool, [])) × Rises (get_all pool)
drain_lem fuel pool p h = (drain-get_all fuel pool h, get_all-Rises pool p)

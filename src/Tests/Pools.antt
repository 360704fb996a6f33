-- ===== src/Tests/Pools.antt =====
-- The theorems about the pool, at a pool of one transaction and a batch with a repetition.
use simb.Prelude.{ℕ, ◌≡◌, refl, [], ◌∷◌, none, some, true, arith, Str, str_eq, text}
use simb.Prelude.BTreeMap
use simb.Prelude.Order.{str_ord, str_cmp}
use simb.Interface.{Transaction}
use simb.Pool.{Pool, new, add_transaction, add_transactions, contains, next, get_all, drain}
use simb.Pool.Adding.{add_transactions_lem, Distinct}
use simb.Pool.Invariant.{IsPool, pool_operations-IsPool, drain_lem, Rises}

abbrev transaction : Str → ℕ → Transaction
transaction hash value = record { hash = hash; from = []; to = []; value = value; nonce = 0 }

abbrev pub a : Transaction
a = transaction (text "a") 1

abbrev pub b : Transaction
b = transaction (text "b") 2

abbrev b' : Transaction
b' = transaction (text "b") 3

abbrev pub c : Transaction
c = transaction (text "c") 4

abbrev pub pool : Pool
pool = (text "a", a) ∷ []

-- The program's own test of the pool.
test_pool :
    (add_transaction a new ≡ (some (text "a"), pool))
    × (add_transaction a pool ≡ (none, pool))
    × (next pool ≡ (some a, []))
    × (next [] ≡ (none, []))
unfolding add_transaction next BTreeMap.get BTreeMap.put str_cmp
test_pool = (refl, refl, refl, refl)

-- A repetition replaces what was there, and is reported once.
test_repetition :
    add_transactions (b ∷ a ∷ b' ∷ []) pool ≡ (text "b" ∷ [], (text "a", a) ∷ (text "b", b') ∷ [])
unfolding add_transactions BTreeMap.get BTreeMap.put str_cmp
test_repetition = refl

add_transactions_example :
    (BTreeMap.get (text "b") (add_transactions (b ∷ b' ∷ []) pool).1 ≡ some b')
    × (contains (add_transactions (b ∷ b' ∷ []) pool).0 (text "b") ≡ true)
    × Distinct (add_transactions (b ∷ b' ∷ []) pool).0
unfolding BTreeMap.get str_cmp str_eq
add_transactions_example = add_transactions_lem (b ∷ b' ∷ []) pool (text "b")

pub pool-IsPool : IsPool pool
pool-IsPool = record { sorted = (tt, tt); keyed = (refl, tt) }

operations_example :
    IsPool (add_transaction b pool).1
    × IsPool (add_transactions (b ∷ b' ∷ []) pool).1
    × IsPool (next pool).1
operations_example = pool_operations-IsPool pool b (b ∷ b' ∷ []) pool-IsPool

drain_example : (drain 1 pool ≡ (get_all pool, [])) × Rises (get_all pool)
drain_example = drain_lem 1 pool pool-IsPool (omega arith)

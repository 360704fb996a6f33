-- ===== src/Pool/Adding.antt =====
-- src/pool.rs: what adding transactions does to the pool, and what is reported and broadcast.
use simb.Prelude.{
  ◌≡◌, refl, List, [], ◌∷◌, ◌++◌, Option, none, some, Bool, true, false, ◌&&◌, ◌||◌, arith, Str,
  str_eq, str_eq_iff, str_eq_refl, All, if◌then◌else◌,
}
use simb.Prelude.Result.{ok, and_then}
use simb.Prelude.Exec.{continue-pure}
use simb.Prelude.BTreeMap
use simb.Prelude.Order.{str_ord, str_cmp-eq}
use simb.Interface.{Transaction, Failures}
use simb.Interface.Providers.{BroadcastProvider}
use simb.Pool.{
  Pool, is_none, add_loop, add_transactions, contains, only_added, add_transactions_and_broadcast,
}

-- The last transaction of a list with a hash.
abbrev pub last_with : Str → List Transaction → Option Transaction
last_with h [] = none
last_with h (tx ∷ txs) = elim (last_with h txs) [
  | some later ↦ some later
  | none ↦ if str_eq tx.hash h then some tx else none
]

abbrev pub has : Str → List Transaction → Bool
has h [] = false
has h (tx ∷ txs) = str_eq tx.hash h || has h txs

abbrev pub or_else : Option Transaction → Option Transaction → Option Transaction
or_else none o = o
or_else (some tx) o = some tx

-- No text twice.
abbrev pub Distinct : List Str → Type 0
Distinct [] = Unit
Distinct (s ∷ ss) = (contains ss s ≡ false) × Distinct ss

-- The transactions whose hash the pool does not hold.
abbrev pub unknown : Pool → List Transaction → List Transaction
unknown pool [] = []
unknown pool (tx ∷ txs) =
    if is_none (BTreeMap.get tx.hash pool) then tx ∷ unknown pool txs else unknown pool txs

pub get-put :
    (k h : Str) (tx : Transaction) (pool : Pool)
    → BTreeMap.get h (BTreeMap.put k tx pool)
      ≡ (if str_eq k h then some tx else BTreeMap.get h pool)
get-put k h tx pool = ground (arith, BTreeMap.get-put k h tx pool, str_cmp-eq k h, str_eq_iff k h)

contains-snoc :
    (ss : List Str) (t h : Str) → contains (ss ++ t ∷ []) h ≡ (contains ss h || str_eq t h)
unfolding contains
contains-snoc [] t h = ground arith
contains-snoc (s ∷ ss) t h = ground (arith, contains-snoc ss t h)

get-add_loop :
    (txs : List Transaction) (added : List Str) (pool : Pool) (h : Str)
    → BTreeMap.get h (add_loop txs added pool).1 ≡ or_else (last_with h txs) (BTreeMap.get h pool)
unfolding add_loop
get-add_loop [] added pool h = refl
get-add_loop (tx ∷ txs) added pool h = ground (
  arith,
  get-put tx.hash h tx pool,
  get-add_loop txs (if is_none (BTreeMap.get tx.hash pool) then added ++ tx.hash ∷ [] else added)
      (BTreeMap.put tx.hash tx pool) h,
)

contains-add_loop :
    (txs : List Transaction) (added : List Str) (pool : Pool) (h : Str)
    → contains (add_loop txs added pool).0 h
      ≡ (contains added h || (is_none (BTreeMap.get h pool) && has h txs))
unfolding add_loop
contains-add_loop [] added pool h = ground arith
contains-add_loop (tx ∷ txs) added pool h = ground (
  arith,
  get-put tx.hash h tx pool,
  contains-snoc added tx.hash h,
  str_eq_iff tx.hash h,
  contains-add_loop txs
      (if is_none (BTreeMap.get tx.hash pool) then added ++ tx.hash ∷ [] else added)
      (BTreeMap.put tx.hash tx pool) h,
)

Distinct-snoc :
    (ss : List Str) (t : Str) → Distinct ss → contains ss t ≡ false → Distinct (ss ++ t ∷ [])
unfolding contains
Distinct-snoc [] t d new = (refl, tt)
Distinct-snoc (s ∷ ss) t d new = (
  ground (arith, contains-snoc ss t s, str_eq_iff s t, str_eq_iff t s),
  Distinct-snoc ss t d.1 (ground arith),
)

-- What is in the list of added hashes is in the pool.
Distinct-add_loop :
    (txs : List Transaction) (added : List Str) (pool : Pool)
    → Distinct added
    → ((h : Str) → contains added h ≡ true → is_none (BTreeMap.get h pool) ≡ false)
    → Distinct (add_loop txs added pool).0
unfolding add_loop
Distinct-add_loop [] added pool d held = d
Distinct-add_loop (tx ∷ txs) added pool d held =
    Distinct-add_loop txs _ (BTreeMap.put tx.hash tx pool)
      (ground (arith, Distinct-snoc added tx.hash d, held tx.hash))
      λ h c. ground (arith, get-put tx.hash h tx pool, contains-snoc added tx.hash h, held h)

-- After adding a batch, each hash of the batch leads to the last transaction that carries it, and
-- every other hash to what it led to before. The reported hashes are those of the batch that the
-- pool did not hold, each once.
pub add_transactions_lem :
    (txs : List Transaction) (pool : Pool) (h : Str)
    → (BTreeMap.get h (add_transactions txs pool).1
        ≡ or_else (last_with h txs) (BTreeMap.get h pool))
      × (contains (add_transactions txs pool).0 h ≡ (is_none (BTreeMap.get h pool) && has h txs))
      × Distinct (add_transactions txs pool).0
unfolding add_transactions contains
add_transactions_lem txs pool h = (
  get-add_loop txs [] pool h,
  contains-add_loop txs [] pool h,
  Distinct-add_loop txs [] pool tt (λ s c. cc),
)

only_added-unknown :
    (added : List Str) (pool : Pool) (ys : List Transaction)
    → All (λ tx. contains added tx.hash ≡ is_none (BTreeMap.get tx.hash pool)) ys
    → only_added added ys ≡ unknown pool ys
unfolding only_added
only_added-unknown added pool [] a = refl
only_added-unknown added pool (y ∷ ys) a = ground (arith, only_added-unknown added pool ys a.1)

All-of_has :
    (P : Transaction → Type 0) (txs ys : List Transaction)
    → ((tx : Transaction) → has tx.hash txs ≡ true → P tx)
    → ((h : Str) → has h ys ≡ true → has h txs ≡ true)
    → All P ys
All-of_has P txs [] p sub = tt
All-of_has P txs (y ∷ ys) p sub = (
  p y (sub y.hash (ground (arith, str_eq_refl y.hash))),
  All-of_has P txs ys p (λ h e. sub h (ground arith)),
)

-- The transactions handed to the network are those of the batch that the pool did not hold, in
-- their order. The batch is in the pool also where the broadcast fails.
pub add_transactions_and_broadcast_lem :
    {F : Failures} {P : Type 0} (provider : BroadcastProvider F P) (txs : List Transaction)
    (pool : Pool) (p : P)
    → let call = provider.broadcast_transactions (unknown pool txs) p in
      add_transactions_and_broadcast provider txs (pool, p) ≡ (
        and_then call.0 (λ _. ok (add_transactions txs pool).0),
        ((add_transactions txs pool).1, call.1),
      )
unfolding add_transactions_and_broadcast
add_transactions_and_broadcast_lem provider txs pool p =
    let e = only_added-unknown (add_transactions txs pool).0 pool txs (
      All-of_has _ txs txs (λ tx h. ground (arith, (add_transactions_lem txs pool tx.hash).1))
        (λ h e. e)) in
    rw e (continue-pure (provider.broadcast_transactions (unknown pool txs) p).0 _ _)

-- ===== src/Pool/Batches.antt =====
-- src/pool.rs: that the pool does not depend on the order, the grouping and the repetition of the
-- transactions that come.
use mathlib.Core.List.{Memᴰ}
use mathlib.Core.List.Memᴰ.{head, tail}
use simb.Prelude.{
  ◌≡◌, refl, ap, sym, ◌∙◌, List, [], ◌∷◌, ◌++◌, some, Option-cases, inl, inr, arith, Str,
  str_eq_iff,
}
use simb.Prelude.BTreeMap
use simb.Prelude.BTreeMap.{same_answers}
use simb.Prelude.Order.{str_ord}
use simb.Interface.{Transaction}
use simb.Pool.{Pool, add_transactions}
use simb.Pool.Adding.{last_with, or_else, add_transactions_lem}
use simb.Pool.Invariant.{IsPool, add_transactions-IsPool}

-- The batches in the order in which they come.
abbrev pub add_batches : List (List Transaction) → Pool → Pool
add_batches [] pool = pool
add_batches (txs ∷ batches) pool = add_batches batches (add_transactions txs pool).1

abbrev pub flat : List (List Transaction) → List Transaction
flat [] = []
flat (txs ∷ batches) = txs ++ flat batches

-- A hash names one transaction.
abbrev pub IsConsistent : List Transaction → Type 0
IsConsistent txs = (s t : Transaction) → Memᴰ s txs → Memᴰ t txs → s.hash ≡ t.hash → s ≡ t

pub last_with-append :
    (h : Str) (xs ys : List Transaction)
    → last_with h (xs ++ ys) ≡ or_else (last_with h ys) (last_with h xs)
last_with-append h [] ys = ground arith
last_with-append h (x ∷ xs) ys = ground (arith, last_with-append h xs ys)

get-add_batches :
    (batches : List (List Transaction)) (pool : Pool) (h : Str)
    → BTreeMap.get h (add_batches batches pool)
      ≡ or_else (last_with h (flat batches)) (BTreeMap.get h pool)
get-add_batches [] pool h = refl
get-add_batches (txs ∷ batches) pool h = ground (
  arith,
  get-add_batches batches (add_transactions txs pool).1 h,
  (add_transactions_lem txs pool h).0,
  last_with-append h txs (flat batches),
)

add_batches-IsPool :
    (batches : List (List Transaction)) (pool : Pool)
    → IsPool pool
    → IsPool (add_batches batches pool)
add_batches-IsPool [] pool p = p
add_batches-IsPool (txs ∷ batches) pool p =
    add_batches-IsPool batches _ (add_transactions-IsPool txs pool p)

-- What `last_with` finds is in the list, under the hash, and it finds something where it can.
last_with-found :
    (h : Str) (txs : List Transaction) (tx : Transaction)
    → last_with h txs ≡ some tx
    → Memᴰ tx txs × (tx.hash ≡ h)
last_with-found h [] tx e = absurd (cc e)
last_with-found h (y ∷ txs) tx e = elim (Option-cases (last_with h txs)) [
  | inr (later, f) ↦
      let (there, same) = last_with-found h txs tx (ground (arith, e, f)) in (tail there, same)
  | inl missing ↦
      let here : (tx ≡ y) × (y.hash ≡ h) = ground (arith, e, missing, str_eq_iff y.hash h) in
      (head here.0, ap (λ t. t.hash) here.0 ∙ here.1)
]

last_with-mem :
    (txs : List Transaction) (tx : Transaction)
    → Memᴰ tx txs
    → (found : Transaction) × (last_with tx.hash txs ≡ some found)
last_with-mem [] tx there = elim there [ ]
last_with-mem (y ∷ txs) tx there = elim (Option-cases (last_with tx.hash txs)) [
  | inr (later, f) ↦ (later, ground (arith, f))
  | inl missing ↦ elim there [
    | head e ↦ (y, ground (arith, missing, ap (λ t. t.hash) e, str_eq_iff y.hash tx.hash))
    | tail later ↦ let (found, f) = last_with-mem txs tx later in absurd (cc (missing, f))
  ]
]

last_with-IsConsistent :
    (txs : List Transaction) (tx : Transaction)
    → IsConsistent txs
    → Memᴰ tx txs
    → last_with tx.hash txs ≡ some tx
last_with-IsConsistent txs tx one there =
    let (found, f) = last_with-mem txs tx there in
    let (there', same) = last_with-found tx.hash txs found f in
    f ∙ ap some (one found tx there' there same)

same_last :
    (xs ys : List Transaction) (h : Str)
    → IsConsistent ys
    → ((tx : Transaction) → Memᴰ tx xs → Memᴰ tx ys)
    → ((tx : Transaction) → Memᴰ tx ys → Memᴰ tx xs)
    → last_with h xs ≡ last_with h ys
same_last xs ys h one forth back = elim (Option-cases (last_with h xs)) [
  | inr (x, e) ↦
      let (there, same) = last_with-found h xs x e in
      e
      ∙ sym (ap (λ k. last_with k ys) (sym same) ∙ last_with-IsConsistent ys x one (forth x there))
  | inl missing ↦ elim (Option-cases (last_with h ys)) [
    | inl missing' ↦ missing ∙ sym missing'
    | inr (y, e) ↦
        let (there, same) = last_with-found h ys y e in
        let (found, f) = last_with-mem xs y (back y there) in absurd (cc (missing, f, same))
  ]
]

-- Where the same transactions come to the same pool, which is in order and has each transaction
-- under its own hash, in two ways, in batches that may differ in their order, their grouping and
-- their repetitions, and no two different ones of them share a hash, the pool ends up the same,
-- with each of these transactions under its hash.
pub same_pool :
    (pool : Pool) (batches others : List (List Transaction))
    → IsPool pool
    → IsConsistent (flat others)
    → ((tx : Transaction) → Memᴰ tx (flat batches) → Memᴰ tx (flat others))
    → ((tx : Transaction) → Memᴰ tx (flat others) → Memᴰ tx (flat batches))
    → (add_batches batches pool ≡ add_batches others pool)
      × ((tx : Transaction)
          → Memᴰ tx (flat others)
          → BTreeMap.get tx.hash (add_batches others pool) ≡ some tx)
same_pool pool batches others p one forth back = (
  same_answers _ _ (add_batches-IsPool batches pool p).sorted
      (add_batches-IsPool others pool p).sorted
      λ h.
        get-add_batches batches pool h
        ∙ ap (λ found. or_else found (BTreeMap.get h pool))
            (same_last (flat batches) (flat others) h one forth back)
        ∙ sym (get-add_batches others pool h),
  λ tx there.
      get-add_batches others pool tx.hash
      ∙ ap (λ found. or_else found (BTreeMap.get tx.hash pool))
          (last_with-IsConsistent (flat others) tx one there),
)

-- ===== src/Pool/Contents.antt =====
-- src/pool.rs: the pools, as what the lists of transactions that come leave when their order and
-- what is replaced is forgotten.
use Prim.Native.Nat.{Ordering}
use mathlib.Core.HLevel.{Σ_prop_path}
use mathlib.Core.Quot
use mathlib.Core.Quot.{Quot, Quot-set}
use simb.Prelude.{◌≡◌, refl, ap, sym, ◌∙◌, List, [], ◌∷◌, ◌++◌, arith, Str, str_eq_iff, All}
use simb.Prelude.BTreeMap
use simb.Prelude.BTreeMap.{IsAbove, IsSorted, same_answers, get_above}
use simb.Prelude.Order.{str_ord, str_cmp-eq}
use simb.Interface.{Transaction}
use simb.Pool.{Pool, new, add_transactions, get_all}
use simb.Pool.Adding.{last_with, or_else, add_transactions_lem}
use simb.Pool.Batches.{last_with-append}
use simb.Pool.Invariant.{IsPool, add_transactions-IsPool}

-- Each hash leads to the same transaction, the last one that carries it.
abbrev pub SameContents : List Transaction → List Transaction → Type 0
SameContents xs ys = (h : Str) → last_with h xs ≡ last_with h ys

abbrev pub Contents : Type 0
Contents = Quot SameContents

abbrev pub ValidPool : Type 0
ValidPool = (pool : Pool) × IsPool pool

Ordering-set : IsSet Ordering
Ordering-set = hlevel

Str-set : IsSet Str
Str-set = hlevel

Transaction-set : IsSet Transaction
Transaction-set = hlevel

IsAbove-prop : (k : Str) (pool : Pool) → IsProp (IsAbove k pool)
IsAbove-prop k [] = hlevel
IsAbove-prop k ((j, t) ∷ pool) = hlevel (Ordering-set, IsAbove-prop k pool)

IsSorted-prop : (pool : Pool) → IsProp (IsSorted pool)
IsSorted-prop [] = hlevel
IsSorted-prop ((j, t) ∷ pool) = hlevel (IsAbove-prop j pool, IsSorted-prop pool)

keyed_prop : (pool : Pool) → IsProp (All (λ e. e.0 ≡ e.1.hash) pool)
keyed_prop [] = hlevel
keyed_prop ((j, t) ∷ pool) = hlevel (Str-set, keyed_prop pool)

IsPool-prop : (pool : Pool) → IsProp (IsPool pool)
IsPool-prop pool = hlevel (IsSorted-prop pool, keyed_prop pool)

ValidPool-ext : (p q : ValidPool) → p.0 ≡ q.0 → p ≡ q
ValidPool-ext p q e = Σ_prop_path IsPool-prop e

pub ValidPool-set : IsSet ValidPool
ValidPool-set = hlevel (Str-set, Transaction-set, IsPool-prop)

pub new-IsPool : IsPool new
new-IsPool = record { sorted = tt; keyed = tt }

abbrev pub filled : List Transaction → ValidPool
filled txs = ((add_transactions txs new).1, add_transactions-IsPool txs new new-IsPool)

get-filled : (txs : List Transaction) (h : Str) → BTreeMap.get h (filled txs).0 ≡ last_with h txs
unfolding BTreeMap.get
get-filled txs h = ground (arith, (add_transactions_lem txs new h).0)

-- What is listed of a pool in order is what it holds.
last_with-get_all :
    (h : Str) (pool : Pool) → IsPool pool → last_with h (get_all pool) ≡ BTreeMap.get h pool
unfolding get_all BTreeMap.get
last_with-get_all h [] p = refl
last_with-get_all h ((j, t) ∷ pool) p = ground (
  arith,
  last_with-get_all h pool (record { sorted = p.sorted.1; keyed = p.keyed.1 }),
  p.keyed.0,
  str_eq_iff t.hash h,
  str_cmp-eq h j,
  get_above j pool p.sorted.0 h,
)

pub same-filled : (xs ys : List Transaction) → SameContents xs ys → filled xs ≡ filled ys
same-filled xs ys same = ValidPool-ext (filled xs) (filled ys) (
    same_answers (filled xs).0 (filled ys).0 (filled xs).1.sorted (filled ys).1.sorted
      (λ h. get-filled xs h ∙ same h ∙ sym (get-filled ys h)))

-- The pool of what came, and what came as far as a pool tells.
unfoldable pub pool_of : Contents → ValidPool
pool_of = Quot.lift ValidPool-set filled same-filled

unfoldable pub contents_of : ValidPool → Contents
contents_of p = Quot.mk (get_all p.0)

-- The pools that can come about are the lists of transactions up to what each hash leads to: from
-- the contents to the pool and back is the identity, from a pool in order, with each transaction
-- under its own hash, to its contents and back is the identity, and adding a batch to a pool is
-- appending it to the contents.
pub contents_lem :
    ((contents : Contents) → contents_of (pool_of contents) ≡ contents)
    × ((p : ValidPool) → pool_of (contents_of p) ≡ p)
    × ((xs ys : List Transaction)
        → (pool_of (Quot.mk (xs ++ ys))).0 ≡ (add_transactions ys (pool_of (Quot.mk xs)).0).1)
unfolding pool_of contents_of
contents_lem = (
  Quot.ind (λ c. Quot-set _ _)
      (λ xs. Quot.sound (λ h. last_with-get_all h (filled xs).0 (filled xs).1 ∙ get-filled xs h)),
  λ p. ValidPool-ext _ p (
      same_answers _ p.0 (filled (get_all p.0)).1.sorted p.1.sorted
        (λ h. get-filled (get_all p.0) h ∙ last_with-get_all h p.0 p.1)),
  λ xs ys.
      same_answers _ _ (filled (xs ++ ys)).1.sorted
        (add_transactions-IsPool ys (filled xs).0 (filled xs).1).sorted
        (λ h.
          get-filled (xs ++ ys) h
          ∙ last_with-append h xs ys
          ∙ ap (or_else (last_with h ys)) (sym (get-filled xs h))
          ∙ sym (add_transactions_lem ys (filled xs).0 h).0),
)

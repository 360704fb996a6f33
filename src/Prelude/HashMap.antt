-- ===== src/Prelude/HashMap.antt =====
-- `std::collections::HashMap`: the entries in no order, each key once. The equality of the keys is
-- an interface.
use Prim.Native.Nat.{ℕ, ◌+◌}
use mathlib.Core.Path.{◌≡◌, refl}
use mathlib.Core.Logic.{◌↔◌}
use mathlib.Core.Bool.{Bool, true}
use mathlib.Core.List.{List, [], ◌∷◌}
use mathlib.Core.Option.{Option, none, some}
use native.Mathlib.Omega.{arith}
use simb.Prelude.Tests.{if◌then◌else◌}

pub record Equal {ℓ} (K : Type ℓ) : Type ℓ where
  pub same : K → K → Bool
  pub same_iff : (a b : K) → (same a b ≡ true) ↔ (a ≡ b)

abbrev pub HashMap {ℓ κ} : Type ℓ → Type κ → Type (ℓ ⊔ κ)
HashMap K V = List (K × V)

pub same_refl {ℓ} : {K : Type ℓ} ⦃eq : Equal K⦄ (k : K) → eq.same k k ≡ true
same_refl ⦃eq⦄ k = (eq.same_iff k k).1 refl

-- How many entries have a value that passes the test.
unfoldable pub count {ℓ κ} : {K : Type ℓ} {V : Type κ} → (V → Bool) → HashMap K V → ℕ
count p [] = 0
count p ((j, v) ∷ m) = (if p v then 1 else 0) + count p m

module _ {ℓ κ} {K : Type ℓ} {V : Type κ} ⦃eq : Equal K⦄ where
  unfoldable pub get : K → HashMap K V → Option V
  get k [] = none
  get k ((j, v) ∷ m) = let rest = get k m in if eq.same k j then some v else rest

  -- The map without the key.
  unfoldable pub without : K → HashMap K V → HashMap K V
  without k [] = []
  without k ((j, v) ∷ m) = let rest = without k m in if eq.same k j then rest else (j, v) ∷ rest

  abbrev pub insert : K → V → HashMap K V → HashMap K V
  insert k v m = (k, v) ∷ without k m

  abbrev pub remove : K → HashMap K V → Option V × HashMap K V
  remove k m = (get k m, without k m)

  pub get-without :
      (k j : K) (m : HashMap K V) → get j (without k m) ≡ (if eq.same k j then none else get j m)
  unfolding get without
  get-without k j [] = ground arith
  get-without k j ((i, v) ∷ m) =
      ground (arith, get-without k j m, eq.same_iff k i, eq.same_iff j i, eq.same_iff k j)

  pub get-insert :
      (k j : K) (v : V) (m : HashMap K V)
      → get j (insert k v m) ≡ (if eq.same k j then some v else get j m)
  unfolding get
  get-insert k j v m = ground (arith, get-without k j m, eq.same_iff k j, eq.same_iff j k)

  pub without-none : (k : K) (m : HashMap K V) → get k m ≡ none → without k m ≡ m
  unfolding get without
  without-none k [] e = refl
  without-none k ((j, v) ∷ m) e = ground (arith, without-none k m)

  -- No key twice.
  abbrev pub IsMap : HashMap K V → Type κ
  IsMap [] = Unit
  IsMap ((j, v) ∷ m) = (get j m ≡ none) × IsMap m

  pub without-IsMap : (k : K) (m : HashMap K V) → IsMap m → IsMap (without k m)
  unfolding without
  without-IsMap k [] i = tt
  without-IsMap k ((j, v) ∷ m) i =
      ground (arith, without-IsMap k m i.1, get-without k j m, eq.same_iff k j)

  -- The entry that is taken out is counted no more.
  pub count-without :
      (p : V → Bool) (k : K) (v : V) (m : HashMap K V)
      → IsMap m
      → get k m ≡ some v
      → count p m ≡ (if p v then 1 else 0) + count p (without k m)
  unfolding get without count
  count-without p k v [] i e = cc
  count-without p k v ((j, w) ∷ m) i e =
      ground (arith, count-without p k v m i.1, without-none k m, eq.same_iff k j)

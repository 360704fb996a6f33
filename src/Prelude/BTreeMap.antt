-- ===== src/Prelude/BTreeMap.antt =====
-- `std::collections::BTreeMap`: the entries in the order of their keys.
use Prim.Native.Nat.{Ordering}
use mathlib.Core.Path.{◌≡◌, refl}
use mathlib.Core.Logic.{◌≢◌}
use mathlib.Core.List.{List, [], ◌∷◌}
use mathlib.Core.Option.{Option, none, some}
use native.Mathlib.Omega.{arith}
use simb.Prelude.Order.{Ord, cmp_refl}

abbrev pub BTreeMap {ℓ κ} : Type ℓ → Type κ → Type (ℓ ⊔ κ)
BTreeMap K V = List (K × V)

module _ {ℓ κ} {K : Type ℓ} {V : Type κ} ⦃o : Ord K⦄ where
  unfoldable pub get : K → BTreeMap K V → Option V
  get k [] = none
  get k ((j, v) ∷ m) = let rest = get k m in elim (o.cmp k j) [ Ordering.eq ↦ some v | _ ↦ rest ]

  unfoldable pub put : K → V → BTreeMap K V → BTreeMap K V
  put k v [] = (k, v) ∷ []
  put k v ((j, w) ∷ m) =
      let rest = put k v m in
      elim (o.cmp k j) [
        | Ordering.lt ↦ (k, v) ∷ (j, w) ∷ m
        | Ordering.eq ↦ (j, v) ∷ m
        | Ordering.gt ↦ (j, w) ∷ rest
      ]

  -- The value that the key had before comes back beside the new map.
  abbrev pub insert : K → V → BTreeMap K V → Option V × BTreeMap K V
  insert k v m = (get k m, put k v m)

  unfoldable pub pop_first : BTreeMap K V → Option (K × V) × BTreeMap K V
  pop_first [] = (none, [])
  pop_first (e ∷ m) = (some e, m)

  unfoldable pub last_key_value : BTreeMap K V → Option (K × V)
  last_key_value [] = none
  last_key_value (e ∷ []) = some e
  last_key_value (e ∷ f ∷ m) = last_key_value (f ∷ m)

  -- Each key is above the ones before it.
  abbrev pub IsAbove : K → BTreeMap K V → Type ℓ
  IsAbove k [] = Unit
  IsAbove k ((j, v) ∷ m) = (o.cmp k j ≡ Ordering.lt) × IsAbove k m

  abbrev pub IsSorted : BTreeMap K V → Type ℓ
  IsSorted [] = Unit
  IsSorted ((j, v) ∷ m) = IsAbove j m × IsSorted m

  pub get-put :
      (k j : K) (v : V) (m : BTreeMap K V)
      → get j (put k v m) ≡ elim (o.cmp k j) [ Ordering.eq ↦ some v | _ ↦ get j m ]
  unfolding get put
  get-put k j v [] = ground (arith, o.cmp-eq k j, o.cmp-eq j k)
  get-put k j v ((i, w) ∷ m) =
      ground (arith, o.cmp-eq k j, o.cmp-eq j k, o.cmp-eq k i, o.cmp-eq j i, get-put k j v m)

  IsAbove-trans : (i j : K) (m : BTreeMap K V) → o.cmp i j ≡ Ordering.lt → IsAbove j m → IsAbove i m
  IsAbove-trans i j [] h a = tt
  IsAbove-trans i j ((k, v) ∷ m) h a = (o.cmp_trans i j k h a.0, IsAbove-trans i j m h a.1)

  IsAbove-put :
      (i k : K) (v : V) (m : BTreeMap K V)
      → o.cmp i k ≡ Ordering.lt
      → IsAbove i m
      → IsAbove i (put k v m)
  unfolding put
  IsAbove-put i k v [] h a = (h, tt)
  IsAbove-put i k v ((j, w) ∷ m) h a = ground (arith, IsAbove-put i k v m h a.1)

  pub put-IsSorted : (k : K) (v : V) (m : BTreeMap K V) → IsSorted m → IsSorted (put k v m)
  unfolding put
  put-IsSorted k v [] s = (tt, tt)
  put-IsSorted k v ((j, w) ∷ m) s = ground (
    arith,
    put-IsSorted k v m s.1,
    o.cmp-eq k j,
    o.cmp_flip j k,
    IsAbove-trans k j m,
    IsAbove-put j k v m,
  )

  pub get_above :
      (k : K) (m : BTreeMap K V) → IsAbove k m → (j : K) → o.cmp j k ≢ Ordering.gt → get j m ≡ none
  unfolding get
  get_above k [] a j h = refl
  get_above k ((i, w) ∷ m) a j h = ground (
    arith,
    o.cmp-eq j k,
    o.cmp-eq j i,
    o.cmp_flip k i,
    o.cmp_trans j k i,
    o.cmp_flip j i,
    get_above k m a.1 j h,
  )

  pub above_found :
      (i : K) (m : BTreeMap K V)
      → IsAbove i m
      → (k : K) {v : V} → get k m ≡ some v
      → o.cmp i k ≡ Ordering.lt
  unfolding get
  above_found i [] a k e = cc
  above_found i ((j, w) ∷ m) a k {v} e = ground (arith, o.cmp-eq k j, above_found i m a.1 k {v = v})

  -- The last entry is the one with the greatest key.
  pub last_found :
      (m : BTreeMap K V) {k : K} {v : V}
      → IsSorted m
      → last_key_value m ≡ some (k, v)
      → (get k m ≡ some v) × ((j : K) → o.cmp k j ≡ Ordering.lt → get j m ≡ none)
  unfolding get last_key_value
  last_found [] s e = cc
  last_found ((i, w) ∷ []) {k} s e =
      (ground (arith, cmp_refl i), λ j h. ground (arith, o.cmp-eq j i, o.cmp_flip i j))
  last_found ((i, w) ∷ f ∷ m) {k} {v} s e =
      let (here, above) = last_found (f ∷ m) s.1 e in
      let higher = above_found i (f ∷ m) s.0 k here in
      (
        ground (arith, here, higher, o.cmp_flip i k),
        λ j h. ground (arith, above j h, o.cmp_trans i k j higher h, o.cmp_flip i j),
      )

  pub last_none : (m : BTreeMap K V) → last_key_value m ≡ none → (j : K) → get j m ≡ none
  unfolding get last_key_value
  last_none [] e j = refl
  last_none (f ∷ []) e j = cc
  last_none (f ∷ g ∷ m) e j = absurd (ground (arith, last_none (g ∷ m) e g.0, cmp_refl g.0))

  -- A sorted map is what it answers.
  pub same_answers :
      (m n : BTreeMap K V) → IsSorted m → IsSorted n → ((k : K) → get k m ≡ get k n) → m ≡ n
  unfolding get
  same_answers [] [] s t same = refl
  same_answers [] ((j, w) ∷ n) s t same = absurd (ground (arith, same j, cmp_refl j))
  same_answers ((i, v) ∷ m) [] s t same = absurd (ground (arith, same i, cmp_refl i))
  same_answers ((i, v) ∷ m) ((j, w) ∷ n) s t same =
      let keys : i ≡ j = ground (
        arith,
        same i,
        same j,
        cmp_refl i,
        cmp_refl j,
        o.cmp-eq i j,
        o.cmp_flip i j,
        o.cmp_flip j i,
        get_above j n t.0 i,
        get_above i m s.0 j,
      ) in
      let rest : (k : K) → get k m ≡ get k n = λ k. ground (
        arith,
        same k,
        keys,
        o.cmp-eq k i,
        o.cmp-eq k j,
        cmp_refl k,
        get_above i m s.0 k,
        get_above j n t.0 k,
      ) in
      ground (arith, keys, same i, cmp_refl i, same_answers m n s.1 t.1 rest)

-- ===== src/Prelude/Order.antt =====
-- `Ord` as an interface, for the numbers and for the texts, which are ordered byte by byte.
use Prim.Native.Nat.{ℕ, compare, Ordering}
use mathlib.Core.Path.{◌≡◌, refl}
use mathlib.Core.Logic.{◌↔◌}
use mathlib.Core.List.{[], ◌∷◌}
use native.Mathlib.Omega.{arith}
use simb.Prelude.Text.{Str}

pub record Ord {ℓ} (K : Type ℓ) : Type ℓ where
  pub cmp : K → K → Ordering
  pub cmp-eq : (a b : K) → (cmp a b ≡ Ordering.eq) ↔ (a ≡ b)
  pub cmp_flip : (a b : K) → (cmp a b ≡ Ordering.lt) ↔ (cmp b a ≡ Ordering.gt)
  pub cmp_trans :
      (a b c : K) → cmp a b ≡ Ordering.lt → cmp b c ≡ Ordering.lt → cmp a c ≡ Ordering.lt

pub cmp_refl {ℓ} : {K : Type ℓ} ⦃o : Ord K⦄ (k : K) → o.cmp k k ≡ Ordering.eq
cmp_refl ⦃o⦄ k = (o.cmp-eq k k).1 refl

unfoldable pub str_cmp : Str → Str → Ordering
str_cmp [] [] = Ordering.eq
str_cmp [] (b ∷ t) = Ordering.lt
str_cmp (a ∷ s) [] = Ordering.gt
str_cmp (a ∷ s) (b ∷ t) =
    let rest = str_cmp s t in
    elim (compare a b) [
      | Ordering.lt ↦ Ordering.lt
      | Ordering.gt ↦ Ordering.gt
      | Ordering.eq ↦ rest
    ]

pub str_cmp-eq : (s t : Str) → (str_cmp s t ≡ Ordering.eq) ↔ (s ≡ t)
unfolding str_cmp
str_cmp-eq [] [] = ground arith
str_cmp-eq [] (b ∷ t) = ground arith
str_cmp-eq (a ∷ s) [] = ground arith
str_cmp-eq (a ∷ s) (b ∷ t) = ground (arith, str_cmp-eq s t)

pub str_cmp_flip : (s t : Str) → (str_cmp s t ≡ Ordering.lt) ↔ (str_cmp t s ≡ Ordering.gt)
unfolding str_cmp
str_cmp_flip [] [] = ground arith
str_cmp_flip [] (b ∷ t) = ground arith
str_cmp_flip (a ∷ s) [] = ground arith
str_cmp_flip (a ∷ s) (b ∷ t) = ground (arith, str_cmp_flip s t)

pub str_cmp_trans :
    (s t u : Str)
    → str_cmp s t ≡ Ordering.lt
    → str_cmp t u ≡ Ordering.lt
    → str_cmp s u ≡ Ordering.lt
unfolding str_cmp
str_cmp_trans [] [] u p q = cc
str_cmp_trans [] (b ∷ t) [] p q = cc
str_cmp_trans [] (b ∷ t) (c ∷ u) p q = refl
str_cmp_trans (a ∷ s) [] u p q = cc
str_cmp_trans (a ∷ s) (b ∷ t) [] p q = cc
str_cmp_trans (a ∷ s) (b ∷ t) (c ∷ u) p q = ground (arith, str_cmp_trans s t u)

instance abbrev pub str_ord : Ord Str
str_ord = record {
  cmp = str_cmp;
  cmp-eq = str_cmp-eq;
  cmp_flip = str_cmp_flip;
  cmp_trans = str_cmp_trans;
}

pub ℕ_cmp-eq : (a b : ℕ) → (compare a b ≡ Ordering.eq) ↔ (a ≡ b)
ℕ_cmp-eq a b = ground arith

pub ℕ_cmp_flip : (a b : ℕ) → (compare a b ≡ Ordering.lt) ↔ (compare b a ≡ Ordering.gt)
ℕ_cmp_flip a b = ground arith

pub ℕ_cmp_trans :
    (a b c : ℕ) → compare a b ≡ Ordering.lt → compare b c ≡ Ordering.lt → compare a c ≡ Ordering.lt
ℕ_cmp_trans a b c p q = ground arith

instance abbrev pub ℕ_ord : Ord ℕ
ℕ_ord = record { cmp = compare; cmp-eq = ℕ_cmp-eq; cmp_flip = ℕ_cmp_flip; cmp_trans = ℕ_cmp_trans }

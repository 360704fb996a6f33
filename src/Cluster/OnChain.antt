-- ===== src/Cluster/OnChain.antt =====
-- Headers and views that belong to one chain.
use simb.Prelude.{ℕ, ◌+◌, ◌≤◌, ◌<◌, ◌≡◌, sym, ◌∙◌, ap, inl, inr, Bool, arith, le-or-lt}
use simb.Interface.{Header, header_eq_iff}
use simb.External.{u64_mod}
use simb.BlockTree.View.{View, IsNumbered, check, put, add}
use simb.Manager.Rule.{Rule, IsUsual}

pub record IsOnChain (main : View) (h : Header) : Type 0 where
  pub low : h.number ≤ main.tip
  pub same : h ≡ main.block h.number

-- A view shows the first headers of a chain.
pub record IsPrefix (v main : View) : Type 0 where
  pub low : v.tip ≤ main.tip
  pub same : (n : ℕ) → n ≤ v.tip → v.block n ≡ main.block n

-- The chain itself: it starts with the genesis header, and its numbers are below the last u64.
pub record IsChain (genesis : Header) (main : View) : Type 0 where
  pub zero : genesis.number ≡ 0
  pub first : main.block 0 ≡ genesis
  pub fits : main.tip + 1 < u64_mod

module _ (g : Header) (checks : Bool) (main v : View) (h : Header) (on : IsOnChain main h) where
  pub add-low : v.tip ≤ main.tip → (add g checks v h).1.tip ≤ main.tip
  unfolding add check put
  add-low low = ground (arith, on.low)

  pub add-same :
      (n : ℕ)
      → g.number ≡ 0
      → (n ≤ v.tip → v.block n ≡ main.block n)
      → n ≤ (add g checks v h).1.tip
      → (add g checks v h).1.block n ≡ main.block n
  unfolding add check put
  add-same n zero same below = ground (arith, on.same, header_eq_iff h g, same)

  pub add-tip_up : v.tip ≤ (add g checks v h).1.tip
  unfolding add check put
  add-tip_up = ground arith

pub IsOnChain-IsUsual :
    (g : Header) (main : View) (h : Header) → IsChain g main → IsOnChain main h → IsUsual g h
IsOnChain-IsUsual g main h chain on = (
  elim (le-or-lt 1 h.number) [
    | inl up ↦ inr up
    | inr below ↦
        let none : h.number ≡ 0 = omega arith in inl (on.same ∙ ap main.block none ∙ chain.first)
  ],
  omega (arith, on.low, chain.fits),
)

pub block-IsOnChain :
    (main v : View) (n : ℕ)
    → IsNumbered v
    → IsPrefix v main
    → n ≤ v.tip
    → IsOnChain main (v.block n)
block-IsOnChain main v n numbering prefix below =
    let number = numbering.numbered n below in
    record {
      low = omega (arith, number, prefix.low);
      same = prefix.same n below ∙ ap main.block (sym number);
    }

-- A node that gets headers of one chain only shows headers of that chain only, and sends no others.
abbrev pub chain_rule :
    {g : Header} {main : View} → (checks : Bool) → ℕ → IsChain g main → Rule g checks
chain_rule {g} {main} checks low chain = record {
  Comes = IsOnChain main;
  Leaves = IsOnChain main;
  Holds = λ v. IsPrefix v main × (low ≤ v.tip);
  Comes-IsUsual = λ h on. IsOnChain-IsUsual g main h chain on;
  Comes-Leaves = λ h on. on;
  Holds-add = λ v h numbering holds on. (
    record {
      low = add-low g checks main v h on holds.0.low;
      same = λ n below. add-same g checks main v h on n chain.zero (holds.0.same n) below;
    },
    omega (arith, holds.1, add-tip_up g checks main v h on),
  );
  Holds-Leaves = λ v n numbering holds below. block-IsOnChain main v n numbering holds.0 below;
}

-- A header above the chain is put on it.
module _ (main : View) (h : Header) (above : main.tip < h.number) where
  pub IsOnChain-put : (h' : Header) → IsOnChain main h' → IsOnChain (put main h) h'
  unfolding put
  IsOnChain-put h' on = record {
    low = omega (arith, on.low);
    same = ground (arith, on.low, on.same);
  }

  pub IsOnChain-top : IsOnChain (put main h) h
  unfolding put
  IsOnChain-top = record { low = omega arith; same = ground arith }

  pub IsPrefix-put : (v : View) → IsPrefix v main → IsPrefix v (put main h)
  unfolding put
  IsPrefix-put v prefix = record {
    low = omega (arith, prefix.low);
    same = λ n below. ground (arith, prefix.low, prefix.same n below);
  }

  pub put-IsPrefix :
      (v : View)
      → IsPrefix v main
      → v.tip ≡ main.tip
      → h.number ≡ main.tip + 1
      → IsPrefix (put v h) (put main h)
  unfolding put
  put-IsPrefix v prefix level next = record {
    low = omega (arith, prefix.low);
    same = λ n below. ground (arith, prefix.same n);
  }

  pub put-IsChain : (g : Header) → IsChain g main → h.number + 1 < u64_mod → IsChain g (put main h)
  unfolding put
  put-IsChain g chain fits = record {
    zero = chain.zero;
    first = ground (arith, chain.first);
    fits = omega arith;
  }

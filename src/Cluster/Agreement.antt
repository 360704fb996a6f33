-- ===== src/Cluster/Agreement.antt =====
-- Nodes that reach each other's headers, one of which mines, agree; src/net/chain.rs over
-- src/blocktree.rs.
use simb.Prelude.{
  ℕ, ◌+◌, ◌≤◌, ◌<◌, ◌≡◌, refl, ◌∙◌, ap, inl, inr, some, none, Bool-cases, arith, leb, if◌then◌else◌,
}
use simb.Prelude.Result.{ok}
use simb.Interface.{Failures}
use simb.External.{System, u64_mod}
use simb.BlockTree.Types.{BlockTree}
use simb.BlockTree.Contract.{Contract}
use simb.BlockTree.Links.{IsLinked}
use simb.BlockTree.View.{View, found, lookup}
use simb.Cluster.{Cluster, Reach}
use simb.Cluster.OnChain.{IsPrefix}
use simb.Cluster.Invariant.{Agrees, Reach-Agrees}

lookup-IsPrefix :
    (v main : View) (k : ℕ)
    → IsPrefix v main
    → lookup v k ≡ (if leb k v.tip then some (main.block k) else none)
lookup-IsPrefix v main k prefix = elim (Bool-cases (leb k v.tip)) [
  | inl e ↦ rw e (ap some (prefix.same k (ground arith)))
  | inr e ↦ rw e refl
]

module _ (sys : System) {tree : BlockTree} (contract : Contract tree sys.overflow_checks)
    (F : Failures) {H P R C : Type 0} {n : ℕ} {c : Cluster tree H P R C} (fits : n + 1 < u64_mod)
    (reach : Reach sys contract F n c) where
  pub get_agreed :
      (a : Agrees sys contract F n c) (i k : ℕ)
      → tree.get_header_by_block_number (c.nodes i).chain k
        ≡ found (if leb k (a.runs i).view.tip then some (a.main.block k) else none)
  get_agreed a i k =
      let r = a.runs i in
      contract.get_lem (c.nodes i).chain r.view k r.shown
      ∙ ap found (lookup-IsPrefix r.view a.main k r.holds.0)

  pub tip_agreed :
      (a : Agrees sys contract F n c) (i : ℕ)
      → tree.tip (c.nodes i).chain ≡ ok (a.main.block (a.runs i).view.tip)
  tip_agreed a i =
      let r = a.runs i in
      contract.tip_lem (c.nodes i).chain r.view r.shown
      ∙ ap ok (r.holds.0.same r.view.tip (omega arith))

  -- In all that can come about among nodes that start with the genesis header alone, of which one
  -- mines, less than the last u64 times, and whose futures do not panic, there is one linked
  -- chain with as many headers above the genesis header as were mined: the tip of each node is a
  -- header of it, the node gives the headers of it up to that tip and none above, and the tip of
  -- the node that mines is its last.
  pub one_chain :
      (main : View) × IsLinked main
      × (main.tip ≡ n)
      × (main.block 0 ≡ tree.genesis)
      × (tree.tip (c.nodes 0).chain ≡ ok (main.block n))
      × ((i : ℕ)
          → (t : ℕ) × (t ≤ n)
            × (tree.tip (c.nodes i).chain ≡ ok (main.block t))
            × ((k : ℕ)
                → tree.get_header_by_block_number (c.nodes i).chain k
                  ≡ found (if leb k t then some (main.block k) else none)))
  one_chain =
      let a = Reach-Agrees sys contract F fits reach in
      let r = a.runs 0 in
      let top : r.view.tip ≡ n = omega (arith, r.holds.0.low, r.holds.1, a.tip) in
      (
        a.main,
        a.linked,
        a.tip,
        a.chain.first,
        tip_agreed a 0 ∙ ap (λ t. ok (a.main.block t)) top,
        λ i. (
          (a.runs i).view.tip,
          omega (arith, (a.runs i).holds.0.low, a.tip),
          tip_agreed a i,
          get_agreed a i,
        ),
      )

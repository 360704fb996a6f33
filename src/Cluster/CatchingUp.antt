-- ===== src/Cluster/CatchingUp.antt =====
-- A node that syncs from the one that mines: src/net/chain.rs on both sides.
use simb.Prelude.{
  ℕ, suc, ◌+◌, ◌-◌, ◌≤◌, ◌<◌, ◌≡◌, refl, sym, ◌∙◌, ap, inl, inr, [], ◌∷◌, map, some, Bool, false,
  arith, leb, replicate, le-or-lt,
}
use simb.Prelude.Result.{Result, ok}
use simb.Interface.{Header, Failures}
use simb.External.{System, u64_mod}
use simb.BlockTree.Types.{BlockTree}
use simb.BlockTree.Contract.{Contract}
use simb.BlockTree.Links.{IsLinked}
use simb.BlockTree.View.{View, found, lookup}
use simb.SyncHeader.{Peer}
use simb.Manager.Polling.{poll_peers, poll_sync_requests}
use simb.Manager.Synced.{first_sync}
use simb.Manager.CatchUp.{Extends}
use simb.Manager.FromNode.{served, sync_from_node}
use simb.Cluster.{Cluster, Reach}
use simb.Cluster.OnChain.{IsPrefix}
use simb.Cluster.Invariant.{Reach-Agrees}

-- A chain that goes on from the start of another as that one does, to its end, is that one.
Extends-lookup :
    (v peer view main : View) (t k : ℕ)
    → IsPrefix v main
    → IsPrefix peer main
    → peer.tip ≡ t
    → Extends peer v t view
    → lookup view k ≡ lookup peer k
Extends-lookup v peer view main t k prefix prefix' top extends = elim (le-or-lt k t) [
  | inr above ↦
      let e : leb k view.tip ≡ false = ground (arith, extends.tip_eq) in
      let e' : leb k peer.tip ≡ false = ground arith in rw (e, e') refl
  | inl low ↦
      let same : view.block k ≡ peer.block k = elim (le-or-lt k v.tip) [
        | inl old ↦ extends.kept k old ∙ prefix.same k old ∙ sym (prefix'.same k (omega arith))
        | inr new ↦ extends.added k new low
      ] in
      let tips : view.tip ≡ peer.tip = extends.tip_eq ∙ sym top in rw (same, tips) refl
]

IsPrefix-IsLinked : (v main : View) → IsPrefix v main → IsLinked main → IsLinked v
IsPrefix-IsLinked v main prefix linked n below =
    ap (λ b. b.parent_hash) (prefix.same (n + 1) (omega arith))
    ∙ linked n (omega (arith, prefix.low))
    ∙ sym (ap (λ b. b.hash) (prefix.same n (omega arith)))

ok-injective : {E A : Type 0} (x y : A) → ◌≡◌ {A = Result E A} (ok x) (ok y) → x ≡ y
ok-injective x y e = cc

tip_is :
    {tree : BlockTree} {checks : Bool} (contract : Contract tree checks) (s : tree.Self) (v : View)
    (h : Header)
    → contract.Shows s v
    → tree.tip s ≡ ok h
    → (h ≡ v.block v.tip) × (h.number ≡ v.tip)
tip_is contract s v h shown e =
    let same = ok-injective h (v.block v.tip) (sym e ∙ contract.tip_lem s v shown) in
    (
      same,
      ap (λ b. b.number) same ∙ (contract.Shows-IsNumbered s v shown).numbered v.tip (omega arith),
    )

module _ (sys : System) {tree : BlockTree} (contract : Contract tree sys.overflow_checks)
    (F : Failures) {H P R C : Type 0} {n : ℕ} {c : Cluster tree H P R C} (fits : n + 1 < u64_mod)
    (reach : Reach sys contract F n c) where
  -- In all that can come about among nodes that start with the genesis header alone, of which one
  -- mines, less than the last u64 times, and whose futures do not panic: where a node with no sync
  -- in progress wants to sync to the tip of the node that mines, the request for peers finds one
  -- peer, whose node answers as the one that mines, and each call finds the answers to all requests
  -- that are out, in their order, the sync is done after at most one call more than there are
  -- headers above the node's own; then it gives for every number what the node that mines gives,
  -- and the next sync may start.
  pub catches_up :
      (i : ℕ) (header own : Header) (peers : P → Peer F) (p : P)
      → tree.tip (c.nodes 0).chain ≡ ok header
      → tree.tip (c.nodes i).chain ≡ ok own
      → (c.nodes i).closest_peers_request_for_sync ≡ some header
      → (c.nodes i).sync_requests ≡ []
      → peers p ≡ served F tree sys.overflow_checks (c.nodes 0).chain
      → let asked = (poll_peers {F = F} (some (ok (p ∷ []))) (c.nodes i)).1 in
        let calls =
          map first_sync (replicate (suc (header.number - own.number)) (replicate 10 0 ∷ [])) in
        let synced = poll_sync_requests peers calls asked in
        (synced.0 ≡ ok tt)
        × (synced.1.pending_sync_request ≡ false)
        × (synced.1.sync_requests ≡ [])
        × ((k : ℕ)
            → tree.get_header_by_block_number synced.1.chain k
              ≡ tree.get_header_by_block_number (c.nodes 0).chain k)
  catches_up i header own peers p top tip wants idle answers =
      let a = Reach-Agrees sys contract F fits reach in
      let r = a.runs i in
      let r0 = a.runs 0 in
      let v = r.view in
      let peer = r0.view in
      let (_, number) = tip_is contract (c.nodes 0).chain peer header r0.shown top in
      let (_, own_number) = tip_is contract (c.nodes i).chain v own r.shown tip in
      let low : v.tip ≤ peer.tip = omega (arith, r.holds.0.low, r0.holds.1) in
      let linked = IsPrefix-IsLinked peer a.main r0.holds.0 a.linked in
      let same : (v.block v.tip).hash ≡ (peer.block v.tip).hash =
        ap (λ b. b.hash) (r.holds.0.same v.tip (omega arith) ∙ sym (r0.holds.0.same v.tip low)) in
      let (m', went, done, empty, view, shown, extends) =
        sync_from_node contract contract F (c.nodes i) v header (c.nodes 0).chain peer peers p
          r.shown wants idle answers r0.shown linked (omega arith) (omega arith) same in
      rw own_number (
        rw went (
          refl,
          done,
          empty,
          λ k.
              contract.get_lem m'.chain view k shown
              ∙ ap found (
                  Extends-lookup v peer view a.main header.number k r.holds.0 r0.holds.0
                    (sym number) extends)
              ∙ sym (contract.get_lem (c.nodes 0).chain peer k r0.shown),
        ))

-- ===== src/Manager/CatchUp.antt =====
-- src/net/chain.rs: the headers of a sync, added to the chain.
use simb.Prelude.{
  ℕ, zero, suc, ◌+◌, ◌-◌, ◌≤◌, ◌<◌, ◌≡◌, refl, sym, ap, ◌∙◌, Bool, arith, le-or-lt, inl, inr, subst,
}
use simb.Prelude.Result.{ok}
use simb.Interface.{Header}
use simb.BlockTree.Types.{BlockTree, extend_tip}
use simb.BlockTree.View.{View, IsNumbered, put, add}
use simb.BlockTree.Contract.{Contract}
use simb.BlockTree.Added.{check-IsAdjacent}
use simb.BlockTree.Links.{IsLinked}
use simb.SyncHeader.Requests.{blocks}
use simb.Manager.{Manager}
use simb.Manager.Polling.{add_headers}

-- A chain that agrees with a view up to a number, and with the peer's from there to its tip.
pub record Extends (peer v : View) (tip : ℕ) (v' : View) : Type 0 where
  pub tip_eq : v'.tip ≡ tip
  pub kept : (n : ℕ) → n ≤ v.tip → v'.block n ≡ v.block n
  pub added : (n : ℕ) → v.tip < n → n ≤ tip → v'.block n ≡ peer.block n

put-Extends :
    (peer v : View) (t : ℕ)
    → v.tip ≡ t
    → (peer.block (t + 1)).number ≡ t + 1
    → Extends peer v (t + 1) (put v (peer.block (t + 1)))
unfolding put
put-Extends peer v t tip next = record {
  tip_eq = omega arith;
  kept = λ n low. ground arith;
  added = λ n high low. let here : n ≡ t + 1 = omega arith in rw here (ground arith);
}

Extends-trans :
    (peer v v' v'' : View) (t k : ℕ)
    → Extends peer v t v'
    → v.tip ≤ t
    → Extends peer v' k v''
    → t ≤ k
    → Extends peer v k v''
Extends-trans peer v v' v'' t k e low e' high = record {
  tip_eq = e'.tip_eq;
  kept = λ n le. e'.kept n (omega (arith, e.tip_eq)) ∙ e.kept n le;
  added = λ n above le. elim (le-or-lt n v'.tip) [
    | inl old ↦ e'.kept n old ∙ e.added n above (omega (arith, e.tip_eq))
    | inr new ↦ e'.added n new le
  ];
}

pub next-add :
    (g : Header) (checks : Bool) (v : View) (h : Header)
    → h.number ≡ v.tip + 1
    → (v.block v.tip).hash ≡ h.parent_hash
    → add g checks v h ≡ (ok extend_tip, put v h)
unfolding add
next-add g checks v h next parent =
    let previous : h.number - 1 ≡ v.tip = omega arith in
    rw ((check-IsAdjacent g checks v h).1 (inr (omega arith, omega arith, rw previous parent)), add)
      (ground arith)

module _ {tree : BlockTree} {checks : Bool} (contract : Contract tree checks)
    {H P R C : Type 0} where
  -- What a sync leaves: the peer's headers on top of the chain, and nothing else changed.
  pub record CaughtUp (peer v : View) (tip : ℕ) (m m' : Manager tree H P R C) : Type 0 where
    pub view : View
    pub shown : contract.Shows m'.chain view
    pub extended : Extends peer v tip view
    pub only_chain : m' ≡ record m { chain = m'.chain }

  added_first :
      (peer : View) (t k : ℕ) (v v' : View) (m m1 m' : Manager tree H P R C)
      → v.tip ≡ t
      → Extends peer v (t + 1) v'
      → m1 ≡ record m { chain = m1.chain }
      → CaughtUp peer v' (t + 1 + k) m1 m'
      → CaughtUp peer v (t + suc k) m m'
  added_first peer t k v v' m m1 m' tip first frame rest = record {
    view = rest.view;
    shown = rest.shown;
    extended =
        Extends-trans peer v v' rest.view (t + 1) (t + suc k) first (omega arith)
          (subst (λ n. Extends peer v' n rest.view) (omega arith) rest.extended) (omega arith);
    only_chain =
        rest.only_chain ∙ ap (λ (n : Manager tree H P R C). record n { chain = m'.chain }) frame;
  }

  pub add_headers_lem :
      (peer : View) (k t : ℕ) (v : View) (m : Manager tree H P R C)
      → v.tip ≡ t
      → contract.Shows m.chain v
      → IsNumbered peer
      → IsLinked peer
      → t + k ≤ peer.tip
      → (v.block t).hash ≡ (peer.block t).hash
      → ((add_headers (blocks peer.block (t + 1) k) m).0 ≡ ok tt)
        × CaughtUp peer v (t + k) m (add_headers (blocks peer.block (t + 1) k) m).1
  unfolding add_headers blocks
  add_headers_lem peer zero t v m tip shown numbering linked room same = (
    refl,
    record {
      view = v;
      shown = shown;
      extended = record {
        tip_eq = omega arith;
        kept = λ n low. refl;
        added = λ n high low. absurd (omega arith);
      };
      only_chain = refl;
    },
  )
  add_headers_lem peer (suc k) t v m tip shown numbering linked room same =
      let h : Header = peer.block (t + 1) in
      let next : h.number ≡ t + 1 = numbering.numbered (t + 1) (omega arith) in
      let (result, shown1) = contract.add_lem m.chain v h shown (omega (arith, numbering.fits)) in
      let step =
        next-add tree.genesis checks v h (omega arith)
          (rw tip (same ∙ sym (linked t (omega arith)))) in
      let m1 : Manager tree H P R C = record m {
        chain = (tree.try_add_block_header h m.chain).1;
      } in
      let first : Extends peer v (t + 1) (put v h) = put-Extends peer v t tip next in
      let same1 : ((put v h).block (t + 1)).hash ≡ h.hash =
        ap (λ b. b.hash) (first.added (t + 1) (omega arith) (omega arith)) in
      let shown2 : contract.Shows m1.chain (put v h) =
        subst (λ r. contract.Shows m1.chain r.1) step shown1 in
      let (done, rest) =
        add_headers_lem peer k (t + 1) (put v h) m1 first.tip_eq shown2 numbering linked
          (omega arith) same1 in
      let reached : (tree.try_add_block_header h m.chain).0 ≡ ok extend_tip =
        result ∙ ap (λ r. r.0) step in
      rw (reached, add_headers) (done, added_first peer t k v (put v h) m m1 _ tip first refl rest)

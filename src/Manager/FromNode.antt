-- ===== src/Manager/FromNode.antt =====
-- src/net/chain.rs: a sync from another node that runs this code.
use simb.Prelude.{
  suc, ◌+◌, ◌-◌, ◌≤◌, ◌≡◌, refl, ap, ◌∙◌, min, [], ◌∷◌, map, some, Bool, false, arith, replicate,
}
use simb.Prelude.Result.{ok, err, panic}
use simb.Interface.{Header, HeadersRequest, Failures, timeout}
use simb.BlockTree.Types.{BlockTree}
use simb.BlockTree.View.{View}
use simb.BlockTree.Contract.{Contract}
use simb.BlockTree.Links.{IsLinked}
use simb.SyncHeader.{Peer, headers, failed}
use simb.SyncHeader.Answers.{honest}
use simb.Manager.{Manager, handle_get_block_headers_request}
use simb.Manager.Polling.{poll_peers, poll_sync_requests}
use simb.Manager.Serving.{handle_get_block_headers_request_lem}
use simb.Manager.Synced.{first_sync}
use simb.Manager.CatchUp.{Extends}
use simb.Manager.Complete.{sync_catches_up}

-- A peer whose node answers by its chain. A node that panics does not answer in time.
abbrev pub served : (F : Failures) (tree : BlockTree) → Bool → tree.Self → Peer F
served F tree checks chain r = elim (handle_get_block_headers_request tree checks chain r) [
  | ok hs ↦ headers hs
  | err e ↦ elim e [ ]
  | panic ↦ failed timeout
]

served-honest :
    (F : Failures) (tree : BlockTree) (checks : Bool) (contract : Contract tree checks)
    (chain : tree.Self) (v : View) (r : HeadersRequest)
    → contract.Shows chain v
    → r.start_block + r.limit ≤ v.tip + 1
    → served F tree checks chain r ≡ honest v.block r
served-honest F tree checks contract chain v r shown within =
    let all : min r.limit (v.tip + 1 - r.start_block) ≡ r.limit = omega arith in
    rw (handle_get_block_headers_request_lem contract chain v r shown, all, served) refl

module _ {tree : BlockTree} {checks : Bool} (contract : Contract tree checks) {tree' : BlockTree}
    {checks' : Bool} (contract' : Contract tree' checks') {H P R C : Type 0} (F : Failures) where
  -- A sync from another node brings the chain up to the header that it was started for. Where no
  -- sync is in progress, the header is not below the tip, the request for peers finds one peer,
  -- whose node answers by a linked chain that reaches up to the header and agrees with the local
  -- one at the tip, and each call finds the answers to all requests that are out, in their order,
  -- the sync is done after at most one call more than there are headers to get: the headers of the
  -- other node stand on top of the chain up to that header, those below are as they were, no sync
  -- is left, and the next one may start.
  pub sync_from_node :
      (m : Manager tree H P R C) (v : View) (header : Header) (chain : tree'.Self) (peer : View)
      (peers : P → Peer F) (p : P)
      → contract.Shows m.chain v
      → m.closest_peers_request_for_sync ≡ some header
      → m.sync_requests ≡ []
      → peers p ≡ served F tree' checks' chain
      → contract'.Shows chain peer
      → IsLinked peer
      → v.tip ≤ header.number
      → header.number ≤ peer.tip
      → (v.block v.tip).hash ≡ (peer.block v.tip).hash
      → let asked = (poll_peers {F = F} (some (ok (p ∷ []))) m).1 in
        let calls =
          map first_sync (replicate (suc (header.number - v.tip)) (replicate 10 0 ∷ [])) in
        (m' : Manager tree H P R C) × (poll_sync_requests peers calls asked ≡ (ok tt, m'))
        × (m'.pending_sync_request ≡ false)
        × (m'.sync_requests ≡ [])
        × (view : View) × contract.Shows m'.chain view
        × Extends peer v header.number view
  sync_from_node m v header chain peer peers p shown request idle runs shown' linked low high same =
      sync_catches_up contract F m v header peer peers p shown request idle
        (λ r after within.
          ap (λ f. f r) runs
          ∙ served-honest F tree' checks' contract' chain peer r shown' (omega arith))
        (contract'.Shows-IsNumbered chain peer shown') linked low high same

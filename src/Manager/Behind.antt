-- ===== src/Manager/Behind.antt =====
-- src/net/chain.rs: a sync from a node that is not so far as the header that the sync is for.
use simb.Prelude.{
  ℕ, ◌+◌, ◌*◌, ◌-◌, ◌≤◌, ◌<◌, ◌≡◌, refl, sym, ap, subst, ◌∙◌, min, List, [], ◌∷◌, some, Bool, true,
  arith, replicate,
}
use simb.Prelude.Result.{ok, err}
use simb.Interface.{Header, HeadersRequest, Failures}
use simb.BlockTree.Types.{BlockTree}
use simb.BlockTree.View.{View}
use simb.BlockTree.Contract.{Contract}
use simb.SyncHeader.{SyncHeader, empty_response, Peer, headers, ready, pending, poll as poll_sync}
use simb.SyncHeader.Identity.{poll-peer_id}
use simb.SyncHeader.Requests.{blocks}
use simb.SyncHeader.Short.{short_peer}
use simb.Manager.{Manager, take_future}
use simb.Manager.Polling.{Ready, poll_peers, poll_sync_requests, on_synced}
use simb.Manager.Stuck.{IsStuck, polls, polls-IsStuck}
use simb.Manager.Serving.{handle_get_block_headers_request_lem}
use simb.Manager.Complete.{syncer_for, asking, peers_found_lem}
use simb.Manager.FromNode.{served}

module _ {tree' : BlockTree} {checks' : Bool} (contract' : Contract tree' checks') (F : Failures)
    (chain' : tree'.Self) (peer : View) (shown : contract'.Shows chain' peer) where
  served-blocks :
      (r : HeadersRequest)
      → served F tree' checks' chain' r
        ≡ headers (blocks peer.block r.start_block (min r.limit (peer.tip + 1 - r.start_block)))
  served-blocks r =
      rw (handle_get_block_headers_request_lem contract' chain' peer r shown, served) refl

  -- A request from above its tip gets no headers.
  served_above :
      (r : HeadersRequest) → peer.tip < r.start_block → served F tree' checks' chain' r ≡ headers []
  unfolding blocks
  served_above r above =
      let nothing : min r.limit (peer.tip + 1 - r.start_block) ≡ 0 = omega arith in
      served-blocks r ∙ rw (nothing, blocks) refl

module _ {tree : BlockTree} {H P R C : Type 0} {F : Failures} where
  two_calls :
      (peers : P → Peer F) (m : Manager tree H P R C) (s : SyncHeader H P) (f : List (List ℕ))
      → m.sync_requests ≡ s ∷ []
      → (poll_sync (peers s.peer_id) [] s).0 ≡ pending
      → (poll_sync (peers s.peer_id) f (poll_sync (peers s.peer_id) [] s).1).0
        ≡ ready (err empty_response)
      → poll_sync_requests peers ((0, []) ∷ (0, f) ∷ []) m
        ≡ (ok tt, record m { sync_requests = [] })
  unfolding poll_sync_requests take_future on_synced
  two_calls peers m s f only first second =
      rw (only, poll_sync_requests)
        (rw (first, poll_sync_requests)
          (rw (poll-peer_id (peers s.peer_id) [] s, poll_sync_requests)
            (rw (second, poll_sync_requests) refl)))

module _ {tree : BlockTree} {checks : Bool} (contract : Contract tree checks) {tree' : BlockTree}
    {checks' : Bool} (contract' : Contract tree' checks') {H P R C : Type 0} (F : Failures) where
  -- A sync from a node that is too far behind the header that the sync is for fails, and is the
  -- last one. Where it is marked as pending, none is in progress, and the request for peers finds
  -- one peer, whose node answers by its chain, which ends before one of the first ten batches of
  -- the range starts, a first call that sends the requests and a second one that finds their
  -- answers, in order, add none of the headers, also of those that the node has; and whatever the
  -- calls of `poll` after that find, the sync stays marked as pending, and there is neither a
  -- request for peers nor a sync.
  pub behind_no_sync :
      (m : Manager tree H P R C) (v : View) (header : Header) (chain : tree'.Self) (peer : View)
      (peers : P → Peer F) (p : P) (k : ℕ) (calls : List (Ready F P R C))
      → contract.Shows m.chain v
      → m.pending_sync_request ≡ true
      → m.closest_peers_request_for_sync ≡ some header
      → m.sync_requests ≡ []
      → peers p ≡ served F tree' checks' chain
      → contract'.Shows chain peer
      → k < 10
      → peer.tip ≤ v.tip + k * 1000
      → v.tip + k * 1000 < header.number
      → let asked = (poll_peers {F = F} (some (ok (p ∷ []))) m).1 in
        let failed = poll_sync_requests peers ((0, []) ∷ (0, replicate 10 0 ∷ []) ∷ []) asked in
        (failed.0 ≡ ok tt)
        × (failed.1.chain ≡ m.chain)
        × IsStuck (polls checks peers calls failed.1).1
  behind_no_sync m v header chain peer peers p k calls shown marked request idle runs shown' few
        short far =
      let start = asking v p header.number m in
      let s : SyncHeader H P = syncer_for m.provider p v.tip header.number in
      let found = peers_found_lem contract F m v header p shown request idle in
      let answers : (r : HeadersRequest) → peers p r ≡ served F tree' checks' chain r =
        λ r. ap (λ f. f r) runs in
      let (first, second) =
        short_peer (peers p) s k
          (λ r. (_, answers r ∙ served-blocks contract' F chain peer shown' r)) refl refl refl few
          far (λ r high. answers r ∙ served_above contract' F chain peer shown' r (omega arith)) in
      let ended =
        two_calls peers start s (replicate 10 0 ∷ []) refl (ap (λ x. x.0) first)
          (ap (λ x. (poll_sync (peers p) (replicate 10 0 ∷ []) x.1).0) first ∙ second) in
      let whole =
        ap (λ x. poll_sync_requests peers ((0, []) ∷ (0, replicate 10 0 ∷ []) ∷ []) x.1) found
        ∙ ended in
      (
        ap (λ x. x.0) whole,
        ap (λ x. x.1.chain) whole,
        polls-IsStuck checks peers calls _ (
            subst (λ x. IsStuck x.1) (sym whole)
              (record { marked = marked; no_request = refl; no_sync = refl })),
      )

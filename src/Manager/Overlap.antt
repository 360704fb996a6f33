-- ===== src/Manager/Overlap.antt =====
-- src/net/chain.rs: two syncs at a time.
use simb.Prelude.{
  ℕ, ◌+◌, ◌≤◌, ◌<◌, ◌≡◌, ◌≢◌, refl, ap, ◌∙◌, List, [], ◌∷◌, none, some, Bool, false, arith,
}
use simb.Prelude.Result.{ok}
use simb.Interface.{Header, Failures}
use simb.External.{u64_mod}
use simb.BlockTree.Types.{BlockTree}
use simb.BlockTree.View.{View, IsNumbered}
use simb.BlockTree.Contract.{Contract}
use simb.BlockTree.Links.{IsLinked}
use simb.SyncHeader.{SyncHeader, Peer, ready, poll as poll_sync}
use simb.SyncHeader.Requests.{blocks}
use simb.Manager.{
  Manager, take_future, incoming_new_block_header, on_event, announce, request_peers,
}
use simb.Manager.Polling.{poll_sync_requests}
use simb.Manager.CatchUp.{CaughtUp}
use simb.Manager.Complete.{on_synced_lem}
use simb.Manager.Announced.{far_lem}

request_lem :
    {tree : BlockTree} {H P R C : Type 0} (h : Header) (m' : Manager tree H P R C)
    → m'.closest_peers_request_for_sync ≡ none
    → m'.pending_sync_request ≡ false
    → ((request_peers h (announce h m')).closest_peers_request_for_sync ≡ some h)
      × ((request_peers h (announce h m')).sync_requests ≡ m'.sync_requests)
request_lem h m' no_request free = (ground arith, ground arith)

module _ {tree : BlockTree} {checks : Bool} (contract : Contract tree checks) {H P R C : Type 0}
    {F : Failures} (m : Manager tree H P R C) (v : View) where
  first_done_lem :
      (peers : P → Peer F) (s s2 : SyncHeader H P) (answers : List (List ℕ)) (peer : View) (k : ℕ)
      → m.sync_requests ≡ s ∷ s2 ∷ []
      → (poll_sync (peers s.peer_id) answers s).0 ≡ ready (ok (blocks peer.block (v.tip + 1) k))
      → contract.Shows m.chain v
      → IsNumbered peer
      → IsLinked peer
      → v.tip + k ≤ peer.tip
      → (v.block v.tip).hash ≡ (peer.block v.tip).hash
      → (m' : Manager tree H P R C) × CaughtUp contract peer v
          (v.tip + k)
          (record m { sync_requests = s2 ∷ [] })
          m'
        × (poll_sync_requests peers ((0, answers) ∷ []) m
            ≡ (ok tt, record m' { pending_sync_request = false }))
  unfolding poll_sync_requests take_future
  first_done_lem peers s s2 answers peer k out done shown numbering linked room same =
      let (m', caught, e) =
        on_synced_lem contract F (record m { sync_requests = s2 ∷ [] }) v peer k shown numbering
          linked room same in
      let taken : take_future 0 m.sync_requests ≡ some (s, s2 ∷ []) = rw (out, take_future) refl in
      (
        m',
        caught,
        rw (taken, poll_sync_requests)
            (rw (done, poll_sync_requests) (rw (e, poll_sync_requests) refl)),
      )

  -- Of two syncs in progress, with no request for peers out, the first ends well, with headers of a
  -- linked chain that agrees with the local one at the tip. A header that is announced then, more
  -- than one above the new tip and with a number below the last u64, starts a request for peers
  -- while the other sync is still in progress.
  pub sync_overlap :
      (peers : P → Peer F) (s s2 : SyncHeader H P) (answers : List (List ℕ)) (peer : View) (k : ℕ)
      (h : Header)
      → m.sync_requests ≡ s ∷ s2 ∷ []
      → m.closest_peers_request_for_sync ≡ none
      → (poll_sync (peers s.peer_id) answers s).0 ≡ ready (ok (blocks peer.block (v.tip + 1) k))
      → contract.Shows m.chain v
      → IsNumbered peer
      → IsLinked peer
      → v.tip + k ≤ peer.tip
      → (v.block v.tip).hash ≡ (peer.block v.tip).hash
      → h ≢ tree.genesis
      → v.tip + k + 1 < h.number
      → h.number + 1 < u64_mod
      → let m1 = (poll_sync_requests peers ((0, answers) ∷ []) m).1 in
        let m2 = (on_event checks (incoming_new_block_header h) m1).1 in
        (m2.closest_peers_request_for_sync ≡ some h) × (m2.sync_requests ≡ s2 ∷ [])
  sync_overlap peers s s2 answers peer k h out idle done shown numbering linked room same ne far
        fits =
      let (m', caught, e) =
        first_done_lem peers s s2 answers peer k out done shown numbering linked room same in
      let m1 : Manager tree H P R C = record m' { pending_sync_request = false } in
      let (chain, _, e2) =
        far_lem contract caught.view h m1 caught.shown ne (omega (arith, caught.extended.tip_eq))
          fits in
      let (asked, kept) =
        request_lem h (record m1 { chain = chain })
          (ap (λ n. n.closest_peers_request_for_sync) caught.only_chain ∙ idle) refl in
      let same_state =
        ap (λ r. (on_event checks (incoming_new_block_header h) r.1).1) e ∙ ap (λ r. r.1) e2 in
      (
        ap (λ n. n.closest_peers_request_for_sync) same_state ∙ asked,
        ap (λ n. n.sync_requests) same_state ∙ kept ∙ ap (λ n. n.sync_requests) caught.only_chain,
      )

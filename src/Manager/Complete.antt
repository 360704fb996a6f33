-- ===== src/Manager/Complete.antt =====
-- src/net/chain.rs: a sync from the answer to its request for peers to its end.
use simb.Prelude.{
  ℕ, suc, ◌+◌, ◌-◌, ◌≤◌, ◌<◌, ◌≡◌, refl, ap, subst, ◌∙◌, [], ◌∷◌, map, none, some, Bool, false,
  arith, replicate,
}
use simb.Prelude.Result.{ok}
use simb.Interface.{Header, HeadersRequest, Failures}
use simb.BlockTree.Types.{BlockTree}
use simb.BlockTree.View.{View, IsNumbered}
use simb.BlockTree.Contract.{Contract}
use simb.BlockTree.Links.{IsLinked}
use simb.SyncHeader.{SyncHeaderBuilder, SyncHeader, Peer, build, default}
use simb.SyncHeader.Requests.{blocks}
use simb.SyncHeader.Answers.{honest}
use simb.SyncHeader.Progress.{download_done}
use simb.SyncHeader.Agreeing.{download_agrees}
use simb.Manager.{Manager, push_syncers, send_sync_requests}
use simb.Manager.Polling.{poll_peers, add_headers, on_synced, poll_sync_requests}
use simb.Manager.Synced.{first_sync, wait_lem}
use simb.Manager.CatchUp.{Extends, CaughtUp, add_headers_lem}

-- The download that `send_sync_requests` starts.
abbrev pub syncer_for : {H P : Type 0} → H → P → ℕ → ℕ → SyncHeader H P
syncer_for provider peer local target = record {
  provider = provider;
  in_progress_queue = [];
  queued_headers = [];
  max_concurrent_limit = 10;
  local_head_block = local;
  request_limit = 1000;
  target_head = target;
  peer_id = peer;
}

abbrev pub builder_for : {H P : Type 0} → H → P → ℕ → ℕ → SyncHeaderBuilder H P
builder_for provider peer local target = record {
  provider = some provider;
  peer_id = some peer;
  local_head_block = local;
  target_head = target;
  request_limit = 1000;
  max_concurrent_limit = 10;
}

-- The state after the answer of the request for peers, where one peer is found.
abbrev pub asking :
    {tree : BlockTree} {H P R C : Type 0}
    → View
    → P
    → ℕ
    → Manager tree H P R C
    → Manager tree H P R C
asking v peer target m = record m {
  closest_peers_request_for_sync = none;
  sync_requests = syncer_for m.provider peer v.tip target ∷ [];
}

module _ {tree : BlockTree} {checks : Bool} (contract : Contract tree checks) {H P R C : Type 0}
    (F : Failures) (m : Manager tree H P R C) (v : View) where
  pub peers_found_lem :
      (header : Header) (peer : P)
      → contract.Shows m.chain v
      → m.closest_peers_request_for_sync ≡ some header
      → m.sync_requests ≡ []
      → poll_peers {F = F} (some (ok (peer ∷ []))) m ≡ (ok tt, asking v peer header.number m)
  unfolding poll_peers send_sync_requests push_syncers build default
  peers_found_lem header peer shown request idle =
      let number = (contract.Shows-IsNumbered m.chain v shown).numbered v.tip (omega arith) in
      rw (request, poll_peers) (rw (contract.tip_lem m.chain v shown) (rw (number, idle) refl))

  pub on_synced_lem :
      (peer : View) (k : ℕ)
      → contract.Shows m.chain v
      → IsNumbered peer
      → IsLinked peer
      → v.tip + k ≤ peer.tip
      → (v.block v.tip).hash ≡ (peer.block v.tip).hash
      → (m' : Manager tree H P R C) × CaughtUp contract peer v (v.tip + k) m m'
        × (on_synced {F = F} (ok (blocks peer.block (v.tip + 1) k)) m
            ≡ (ok tt, record m' { pending_sync_request = false }))
  unfolding on_synced
  on_synced_lem peer k shown numbering linked room same =
      let (done, caught) =
        add_headers_lem contract peer k v.tip v m refl shown numbering linked room same in
      (
        (add_headers (blocks peer.block (v.tip + 1) k) m).1,
        caught,
        rw (done, on_synced) (rw (contract.tip_lem _ caught.view caught.shown) refl),
      )

module _ {tree : BlockTree} {checks : Bool} (contract : Contract tree checks) {H P R C : Type 0}
    (F : Failures) (m : Manager tree H P R C) (v : View) where
  -- A sync brings the chain up to the header that it was started for. Where the request for peers
  -- finds one peer, which answers the requests for headers in the range as a linked chain up to
  -- that header does that agrees with the local one at the tip, and each call finds the answers to
  -- all requests that are out, the sync is done after at most one call more than there are headers
  -- to get: the headers of the peer stand on top of the chain up to that header, those below are as
  -- they were, no sync is left, and the next one may start.
  pub sync_catches_up :
      (header : Header) (peer : View) (peers : P → Peer F) (p : P)
      → contract.Shows m.chain v
      → m.closest_peers_request_for_sync ≡ some header
      → m.sync_requests ≡ []
      → ((r : HeadersRequest)
          → v.tip < r.start_block
          → r.start_block + r.limit ≤ header.number + 1
          → peers p r ≡ honest peer.block r)
      → IsNumbered peer
      → IsLinked peer
      → v.tip ≤ header.number
      → header.number ≤ peer.tip
      → (v.block v.tip).hash ≡ (peer.block v.tip).hash
      → let asked = (poll_peers {F = F} (some (ok (p ∷ []))) m).1 in
        let calls =
          map first_sync (replicate (suc (header.number - v.tip)) (replicate 10 0 ∷ [])) in
        (m' : Manager tree H P R C) × (poll_sync_requests peers calls asked ≡ (ok tt, m'))
        × (m'.pending_sync_request ≡ false)
        × (m'.sync_requests ≡ [])
        × (view : View) × contract.Shows m'.chain view
        × Extends peer v header.number view
  sync_catches_up header peer peers p shown request idle has numbering linked low high same =
      let start = asking v p header.number m in
      let s : SyncHeader H P = syncer_for m.provider p v.tip header.number in
      let k = header.number - v.tip in
      let found = peers_found_lem contract F m v header p shown request idle in
      let (m', caught, fine) =
        on_synced_lem contract F (record start { sync_requests = [] }) v peer k shown numbering
          linked (omega arith) same in
      let reached : v.tip + k ≡ header.number = omega arith in
      let done =
        download_done {E = ⊥} {F = F} peer.block (builder_for m.provider p v.tip header.number) s
          (unfold build in refl) (omega arith) (omega arith) in
      let alike =
        download_agrees {E = ⊥} (peers p) (honest peer.block)
          (builder_for m.provider p v.tip header.number) s (replicate (suc k) (replicate 10 0 ∷ []))
          (unfold build in refl) has in
      let none_left : m'.sync_requests ≡ [] = ap (λ n. n.sync_requests) caught.only_chain in
      let waited =
        wait_lem peers (replicate (suc k) (replicate 10 0 ∷ [])) start s
          (ok (blocks peer.block (v.tip + 1) k)) refl (ap (λ r. r.0) alike ∙ done)
          (ap (λ r. r.0) fine) (ap (λ r. r.1.sync_requests) fine ∙ none_left) in
      (
        record m' { pending_sync_request = false },
        ap
              (λ r.
                poll_sync_requests peers (map first_sync (replicate (suc k) (replicate 10 0 ∷ [])))
                  r.1)
              found
            ∙ waited
            ∙ fine,
        refl,
        none_left,
        caught.view,
        caught.shown,
        subst (λ n. Extends peer v n caught.view) reached caught.extended,
      )

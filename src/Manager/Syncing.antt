-- ===== src/Manager/Syncing.antt =====
-- src/net/chain.rs: what the failure of a sync leads to.
use simb.Prelude.{ℕ, ◌≡◌, refl, sym, subst, List, [], ◌∷◌, none, some, Bool, true, ◌⊎◌, inl, inr}
use simb.Prelude.Result
use simb.Prelude.Result.{Result, ok, err, panic}
use simb.Prelude.Exec.{continue}
use simb.Interface.{Header, Failures, RequestError}
use simb.BlockTree.Types.{BlockTree, Error}
use simb.SyncHeader.{SyncHeader, SyncHeaderError, Peer, ready, poll as poll_sync}
use simb.Manager.{Manager, take_future, send_sync_requests, push_syncers}
use simb.Manager.Polling.{Ready, poll_peers, on_synced, poll_sync_requests}
use simb.Manager.Stuck.{IsStuck, polls, polls-IsStuck}

module _ {tree : BlockTree} {H P R C : Type 0} where
  send_sync_requests-none :
      (header : Header) (m : Manager tree H P R C) → (send_sync_requests header [] m).1 ≡ m
  unfolding send_sync_requests push_syncers
  send_sync_requests-none header m = go (tree.tip m.chain)
    where
      go :
          (r : Result Error Header)
          → (continue
              (Result.unwrap {F = ⊥} r)
              (λ local_header. push_syncers local_header header [])
              m).1
            ≡ m
      go (ok h) = refl
      go (err e) = refl
      go panic = refl

  ends-IsStuck :
      {F : Failures} (m : Manager tree H P R C) (header : Header)
      (outcome : Result (RequestError F) (List P))
      → m.pending_sync_request ≡ true
      → m.closest_peers_request_for_sync ≡ some header
      → m.sync_requests ≡ []
      → (outcome ≡ ok []) ⊎ ((e : RequestError F) × (outcome ≡ err e))
      → IsStuck (poll_peers (some outcome) m).1
  unfolding poll_peers
  ends-IsStuck m header outcome marked request no_sync (inl e) =
      rw (request, e, poll_peers)
        (subst IsStuck
          (sym
            (send_sync_requests-none header (record m { closest_peers_request_for_sync = none })))
          (record { marked = marked; no_request = refl; no_sync = no_sync }))
  ends-IsStuck m header outcome marked request no_sync (inr (x, e)) =
      rw (request, e, poll_peers) (record { marked = marked; no_request = refl; no_sync = no_sync })

  -- A sync that is marked as pending, with no sync in progress, and whose request for peers fails
  -- or finds no peer, is never done: whatever the calls of `poll` after that find, it stays marked
  -- as pending, and there is neither a request for peers nor a sync.
  pub no_peers_no_sync :
      {F : Failures} (checks : Bool) (peers : P → Peer F) (m : Manager tree H P R C)
      (header : Header) (outcome : Result (RequestError F) (List P)) (calls : List (Ready F P R C))
      → m.pending_sync_request ≡ true
      → m.closest_peers_request_for_sync ≡ some header
      → m.sync_requests ≡ []
      → (outcome ≡ ok []) ⊎ ((e : RequestError F) × (outcome ≡ err e))
      → IsStuck (polls checks peers calls (poll_peers (some outcome) m).1).1
  no_peers_no_sync checks peers m header outcome calls marked request no_sync failed =
      polls-IsStuck checks peers calls (poll_peers (some outcome) m).1
        (ends-IsStuck m header outcome marked request no_sync failed)

  -- A sync that is marked as pending, with no request for peers out, and whose only download ends
  -- with an error, is never done: whatever the calls of `poll` after that find, it stays marked as
  -- pending, and there is neither a request for peers nor a sync.
  pub failed_sync_no_sync :
      {F : Failures} (checks : Bool) (peers : P → Peer F) (m : Manager tree H P R C)
      (syncer : SyncHeader H P) (answers : List (List ℕ)) (error : SyncHeaderError F)
      (calls : List (Ready F P R C))
      → m.pending_sync_request ≡ true
      → m.closest_peers_request_for_sync ≡ none
      → m.sync_requests ≡ syncer ∷ []
      → (poll_sync (peers syncer.peer_id) answers syncer).0 ≡ ready (err error)
      → IsStuck (polls checks peers calls (poll_sync_requests peers ((0, answers) ∷ []) m).1).1
  unfolding poll_sync_requests on_synced take_future
  failed_sync_no_sync checks peers m syncer answers error calls marked request out failed =
      polls-IsStuck checks peers calls (poll_sync_requests peers ((0, answers) ∷ []) m).1 (
        rw (out, poll_sync_requests)
          (rw (failed, poll_sync_requests)
            (record { marked = marked; no_request = request; no_sync = refl })))

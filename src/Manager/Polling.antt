-- ===== src/Manager/Polling.antt =====
-- src/net/chain.rs: `ChainNetworkManager` as a future. Each phase of a call of `poll` takes what
-- has become ready as an argument: the events that have come, the outcome of the request for peers,
-- the syncs that are woken, by their positions, each with the answers that it finds, and the
-- positions of the broadcasts that have ended, each with its outcome. A position that nothing
-- stands at is passed over.
use simb.Prelude.{ℕ, List, [], ◌∷◌, ◌++◌, Option, none, some, Bool, false}
use simb.Prelude.Result
use simb.Prelude.Result.{Result, ok, err, panic}
use simb.Prelude.Exec.{Exec, reads, ◌>>=◌}
use simb.Interface.{Header, Failures, RequestError}
use simb.BlockTree.Types.{BlockTree, invalid, block_header_not_found, database_error}
use simb.SyncHeader.{Peer, ready, pending, Output, poll as poll_sync}
use simb.Manager.{ChainNetworkEvent, Manager, take_future, send_sync_requests, on_event}

pub record Ready (F : Failures) (P R C : Type 0) : Type 0 where
  pub events : List (ChainNetworkEvent R C)
  pub peers : Option (Result (RequestError F) (List P))
  pub syncs : List (ℕ × List (List ℕ))
  pub broadcasts : List (ℕ × Result (RequestError F) (Unit {0}))

pub record PeersRequestOutcome (F : Failures) (P : Type 0) : Type 0 where
  pub header : Header
  pub outcome : Result (RequestError F) (List P)

-- A `PeersRequest` polled, by the answer of the provider's future, if there is one.
abbrev pub poll_peers_request :
    {F : Failures} {P : Type 0}
    → Header
    → Option (Result (RequestError F) (List P))
    → Option (PeersRequestOutcome F P)
poll_peers_request header none = none
poll_peers_request header (some outcome) = some (record { header = header; outcome = outcome })

module _ {tree : BlockTree} {H P R C : Type 0} where
  unfoldable pub poll_events :
      Bool → List (ChainNetworkEvent R C) → Exec (Manager tree H P R C) ⊥ (Unit {0})
  poll_events checks [] m = (ok tt, m)
  poll_events checks (event ∷ events) m =
      (on_event checks event >>= λ _ m'. poll_events checks events m') m

  unfoldable pub poll_peers :
      {F : Failures}
      → Option (Result (RequestError F) (List P))
      → Exec (Manager tree H P R C) ⊥ (Unit {0})
  poll_peers outcome m = elim m.closest_peers_request_for_sync [
    | none ↦ (ok tt, m)
    | some header ↦ elim (poll_peers_request header outcome) [
      | none ↦ (ok tt, m)
      | some request ↦ elim request.outcome [
        | ok peers ↦
            send_sync_requests request.header peers
              (record m { closest_peers_request_for_sync = none })
        | err e ↦ (ok tt, record m { closest_peers_request_for_sync = none })
        | panic ↦ (panic, record m { closest_peers_request_for_sync = none })
      ]
    ]
  ]

  -- The loop that adds the headers of a sync. It ends at the first that is not added.
  unfoldable pub add_headers : List Header → Exec (Manager tree H P R C) ⊥ (Unit {0})
  add_headers [] m = (ok tt, m)
  add_headers (header ∷ headers) m =
      let added = tree.try_add_block_header header m.chain in
      let m' : Manager tree H P R C = record m { chain = added.1 } in
      elim added.0 [
        | ok result ↦ add_headers headers m'
        | err invalid ↦ (ok tt, m')
        | err block_header_not_found ↦ (ok tt, m')
        | err (database_error e) ↦ (panic, m')
        | panic ↦ (panic, m')
      ]

  abbrev pub sync_done : Exec (Manager tree H P R C) ⊥ (Unit {0})
  sync_done m = (ok tt, record m { pending_sync_request = false })

  -- The arms of `match sync_request`.
  unfoldable pub on_synced : {F : Failures} → Output F → Exec (Manager tree H P R C) ⊥ (Unit {0})
  unfolding add_headers
  on_synced (ok headers) m =
      (add_headers headers >>= λ _.
      reads (λ m'. Result.unwrap (tree.tip m'.chain)) >>= λ _. sync_done)
        m
  on_synced (err e) m = (ok tt, m)
  on_synced panic m = (panic, m)

  -- A sync that is woken is polled: it goes back to the others, or it is done.
  unfoldable pub poll_sync_requests :
      {F : Failures}
      → (P → Peer F)
      → List (ℕ × List (List ℕ))
      → Exec (Manager tree H P R C) ⊥ (Unit {0})
  unfolding on_synced
  poll_sync_requests peers [] m = (ok tt, m)
  poll_sync_requests peers ((i, answers) ∷ syncs) m = elim (take_future i m.sync_requests) [
    | none ↦ poll_sync_requests peers syncs m
    | some (syncer, others) ↦
        let result = poll_sync (peers syncer.peer_id) answers syncer in
        elim result.0 [
          | pending ↦
              poll_sync_requests peers syncs (record m { sync_requests = others ++ result.1 ∷ [] })
          | ready output ↦
              (on_synced output >>= λ _ m'. poll_sync_requests peers syncs m')
                (record m { sync_requests = others })
        ]
  ]

  -- What a broadcast ends with is only logged; its future may panic.
  abbrev pub on_broadcasted :
      {F : Failures} → Result (RequestError F) (Unit {0}) → Exec (Manager tree H P R C) ⊥ (Unit {0})
  on_broadcasted (ok done) m = (ok tt, m)
  on_broadcasted (err e) m = (ok tt, m)
  on_broadcasted panic m = (panic, m)

  unfoldable pub poll_broadcasts :
      {F : Failures}
      → List (ℕ × Result (RequestError F) (Unit {0}))
      → Exec (Manager tree H P R C) ⊥ (Unit {0})
  unfolding take_future
  poll_broadcasts [] m = (ok tt, m)
  poll_broadcasts ((i, res) ∷ ended) m = elim (take_future i m.broadcast_requests) [
    | none ↦ poll_broadcasts ended m
    | some (b, others) ↦
        (on_broadcasted res >>= λ _ m'. poll_broadcasts ended m')
          (record m { broadcast_requests = others })
  ]

  -- `Future::poll`, which is never ready.
  unfoldable pub poll :
      {F : Failures}
      → Bool
      → (P → Peer F)
      → Ready F P R C
      → Exec (Manager tree H P R C) ⊥ (Unit {0})
  unfolding poll_events poll_peers poll_sync_requests poll_broadcasts
  poll checks peers now = do
    handled ← poll_events checks now.events
    sent ← poll_peers now.peers
    synced ← poll_sync_requests peers now.syncs
    poll_broadcasts now.broadcasts

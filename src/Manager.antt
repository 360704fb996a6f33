-- ===== src/Manager.antt =====
-- src/net/chain.rs: `ChainNetworkManager`, which serves headers, and keeps the chain and the pool
-- up with what the network announces. It works on any block tree; `H` is the type of the provider,
-- `P` that of peer ids, `R` that of the senders that await a reply, `C` that of response channels.
-- What has become ready when it is polled is an argument. Logging is left out, but for the read of
-- the tip that one message makes.
pub mod Polling
pub mod Serving
pub mod Stuck
pub mod Rule
pub mod Running
pub mod Collected
pub mod Polled
pub mod Alive
pub mod Gossiped
pub mod Syncing
pub mod CatchUp
pub mod Synced
pub mod Complete
pub mod Behind
pub mod FromNode
pub mod Announced
pub mod Overlap
use simb.Prelude.{
  ℕ, zero, suc, ◌+◌, List, [], ◌∷◌, ◌++◌, Option, none, some, Bool, true, false, not, ◌&&◌, Str,
  if◌then◌else◌,
}
use simb.Prelude.Result
use simb.Prelude.Result.{Result, ok, err, panic, and_then}
use simb.Prelude.Exec.{Exec, pure, reads, ◌>>=◌}
use simb.Interface.{Header, Transaction, HeadersRequest, Failures, RequestError}
use simb.External.{add_u64}
use simb.BlockTree.Types.{
  BlockTree, Error, invalid, block_header_not_found, database_error, AddedBlockResult, extend_tip,
  already_in_chain,
}
use simb.Pool
use simb.Pool.{Pool, contains}
use simb.SyncHeader
use simb.SyncHeader.{
  SyncHeader, SyncHeaderError, Peer, Poll, ready, pending, Output, default, build, with_provider,
  with_local_head_block, with_target_head, with_peer_id,
}

-- src/net/network.rs
pub record GetBlockHeadersResponse (C : Type 0) : Type 0 where
  pub headers : List Header
  pub channel : C

-- src/net/mod.rs
pub data ChainNetworkEvent (R C : Type 0) : Type 0 where
  incoming_new_block_header : Header → ChainNetworkEvent R C
  incoming_transactions : List Transaction → ChainNetworkEvent R C
  get_block_headers : R → C → HeadersRequest → ChainNetworkEvent R C

-- A request of the provider that is in progress.
pub data Broadcast : Type 0 where
  broadcast_block_header : Header → Broadcast
  broadcast_transactions : List Transaction → Broadcast

pub record Manager (tree : BlockTree) (H P R C : Type 0) : Type 0 where
  pub chain : tree.Self
  pub provider : H
  pub pool : Pool
  pub sync_requests : List (SyncHeader H P)
  pub broadcast_requests : List Broadcast
  -- The header of the `PeersRequest`.
  pub closest_peers_request_for_sync : Option Header
  pub pending_sync_request : Bool
  pub broadcasted_headers : List Str
  -- The replies sent, with the senders that took them.
  pub responses : List (R × GetBlockHeadersResponse C)

-- The future at a position, and the others.
unfoldable pub take_future : {A : Type 0} → ℕ → List A → Option (A × List A)
take_future i [] = none
take_future zero (x ∷ xs) = some (x, xs)
take_future (suc i) (x ∷ xs) = elim (take_future i xs) [
  | none ↦ none
  | some (y, ys) ↦ some (y, x ∷ ys)
]

-- `HashSet::insert`
unfoldable pub insert_hash : Str → List Str → List Str
insert_hash hash hashes = if contains hashes hash then hashes else hash ∷ hashes

abbrev pub is_none : Option Header → Bool
is_none none = true
is_none (some h) = false

module _ (tree : BlockTree) (checks : Bool) where
  -- The loop of `handle_get_block_headers_request`, from a number, for so many rounds.
  unfoldable pub collect : tree.Self → ℕ → ℕ → Result ⊥ (List Header)
  collect chain zero number = ok []
  collect chain (suc rounds) number = elim (tree.get_header_by_block_number chain number) [
    | ok header ↦
        and_then (add_u64 checks header.number 1)
          λ next. and_then (collect chain rounds next) λ headers. ok (header ∷ headers)
    | err block_header_not_found ↦ ok []
    | err invalid ↦ panic
    | err (database_error e) ↦ panic
    | panic ↦ panic
  ]

  unfoldable pub handle_get_block_headers_request :
      tree.Self → HeadersRequest → Result ⊥ (List Header)
  handle_get_block_headers_request chain request = collect chain request.limit request.start_block

module _ {tree : BlockTree} {H P R C : Type 0} where
  unfoldable pub new : tree.Self → Pool → H → Manager tree H P R C
  new chain pool provider = record {
    chain = chain;
    provider = provider;
    pool = pool;
    sync_requests = [];
    broadcast_requests = [];
    closest_peers_request_for_sync = none;
    pending_sync_request = false;
    broadcasted_headers = [];
    responses = [];
  }

  -- The loop over the peers.
  unfoldable pub push_syncers : Header → Header → List P → Exec (Manager tree H P R C) ⊥ (Unit {0})
  push_syncers local_header header [] m = (ok tt, m)
  push_syncers local_header header (peer ∷ peers) m =
      elim (build {E = ⊥} (
        with_peer_id peer (
          with_target_head header.number
            (with_local_head_block local_header.number (with_provider m.provider default))))) [
              | ok syncer ↦
                  push_syncers local_header header peers
                    (record m { sync_requests = m.sync_requests ++ syncer ∷ [] })
              | err e ↦ (err e, m)
              | panic ↦ (panic, m)
            ]

  unfoldable pub send_sync_requests : Header → List P → Exec (Manager tree H P R C) ⊥ (Unit {0})
  unfolding push_syncers
  send_sync_requests header peers = do
    local_header ← reads (λ m. Result.unwrap (tree.tip m.chain))
    push_syncers local_header header peers

  abbrev pub push_broadcast : Broadcast → Manager tree H P R C → Manager tree H P R C
  push_broadcast b m = record m { broadcast_requests = m.broadcast_requests ++ b ∷ [] }

  -- A header that cannot be checked is passed on once, and starts a sync if none is pending.
  abbrev pub announce : Header → Manager tree H P R C → Manager tree H P R C
  announce header m =
      if contains m.broadcasted_headers header.hash
      then m
      else record (push_broadcast (broadcast_block_header header) m) {
        broadcasted_headers = insert_hash header.hash m.broadcasted_headers;
      }

  abbrev pub request_peers : Header → Manager tree H P R C → Manager tree H P R C
  request_peers header m =
      if is_none m.closest_peers_request_for_sync && not m.pending_sync_request
      then record m { pending_sync_request = true; closest_peers_request_for_sync = some header }
      else m

  -- The arms of `match self.chain.try_add_block_header(...)`.
  unfoldable pub on_added :
      Header → Result Error AddedBlockResult → Exec (Manager tree H P R C) ⊥ (Unit {0})
  unfolding insert_hash
  on_added header (ok extend_tip) m = (ok tt, push_broadcast (broadcast_block_header header) m)
  on_added header (ok already_in_chain) m = (ok tt, m)
  on_added header (err block_header_not_found) m = elim (tree.tip m.chain) [
    | ok local_head_block ↦ (ok tt, request_peers header (announce header m))
    | err e ↦ (panic, m)
    | panic ↦ (panic, m)
  ]
  on_added header (err invalid) m = (ok tt, m)
  on_added header (err (database_error e)) m = (panic, m)
  on_added header panic m = (panic, m)

  -- The first argument says whether the build checks for overflow.
  unfoldable pub on_event : Bool → ChainNetworkEvent R C → Exec (Manager tree H P R C) ⊥ (Unit {0})
  unfolding on_added
  on_event checks (incoming_new_block_header header) m =
      let added = tree.try_add_block_header header m.chain in
      on_added header added.0 (record m { chain = added.1 })
  on_event checks (incoming_transactions transactions) m =
      let added = Pool.add_transactions transactions m.pool in
      (ok tt, push_broadcast (broadcast_transactions transactions) (record m { pool = added.1 }))
  on_event checks (get_block_headers respond channel request) m =
      elim (handle_get_block_headers_request tree checks m.chain request) [
        | ok headers ↦ (
          ok tt,
          record m {
            responses =
                m.responses ++ (respond, record { headers = headers; channel = channel }) ∷ [];
          },
        )
        | err e ↦ (err e, m)
        | panic ↦ (panic, m)
      ]

-- ===== src/Manager/Stuck.antt =====
-- src/net/chain.rs: a node that waits for a sync that is not there, and the calls of `poll` on it.
use simb.Prelude.{
  ℕ, ◌≡◌, refl, List, [], ◌∷◌, Option, none, Bool, true, arith, Option-cases, inl, inr,
}
use simb.Prelude.Result.{Result, ok, err, panic}
use simb.Prelude.Exec.{Exec, continue}
use simb.Interface.{Header, Failures, RequestError}
use simb.BlockTree.Types.{
  BlockTree, Error, invalid, block_header_not_found, database_error, AddedBlockResult, extend_tip,
  already_in_chain,
}
use simb.SyncHeader.{Peer}
use simb.Manager.{
  ChainNetworkEvent, incoming_new_block_header, incoming_transactions, get_block_headers, Manager,
  take_future, on_added, on_event,
}
use simb.Manager.Polling.{
  Ready, on_broadcasted, poll_events, poll_peers, poll_sync_requests, poll_broadcasts, poll,
}

pub take_future-none : {A : Type 0} (i : ℕ) (xs : List A) → xs ≡ [] → take_future i xs ≡ none
unfolding take_future
take_future-none i [] e = refl
take_future-none i (x ∷ xs) e = ground (arith, e)

module _ {tree : BlockTree} {H P R C : Type 0} where
  -- A sync is marked as pending, but there is neither a request for peers nor a sync.
  pub record IsStuck (m : Manager tree H P R C) : Type 0 where
    pub marked : m.pending_sync_request ≡ true
    pub no_request : m.closest_peers_request_for_sync ≡ none
    pub no_sync : m.sync_requests ≡ []

  on_added-IsStuck :
      (header : Header) (added : Result Error AddedBlockResult) (m : Manager tree H P R C)
      → IsStuck m
      → IsStuck (on_added header added m).1
  unfolding on_added
  on_added-IsStuck header (ok extend_tip) m i = record {
    marked = i.marked;
    no_request = i.no_request;
    no_sync = i.no_sync;
  }
  on_added-IsStuck header (ok already_in_chain) m i = i
  on_added-IsStuck header (err block_header_not_found) m i = record {
    marked = ground arith;
    no_request = ground arith;
    no_sync = ground arith;
  }
  on_added-IsStuck header (err invalid) m i = i
  on_added-IsStuck header (err (database_error e)) m i = i
  on_added-IsStuck header panic m i = i

  on_event-IsStuck :
      (checks : Bool) (event : ChainNetworkEvent R C) (m : Manager tree H P R C)
      → IsStuck m
      → IsStuck (on_event checks event m).1
  unfolding on_event
  on_event-IsStuck checks (incoming_new_block_header header) m i =
      on_added-IsStuck header (tree.try_add_block_header header m.chain).0
        (record m { chain = (tree.try_add_block_header header m.chain).1 })
        (record { marked = i.marked; no_request = i.no_request; no_sync = i.no_sync })
  on_event-IsStuck checks (incoming_transactions transactions) m i = record {
    marked = i.marked;
    no_request = i.no_request;
    no_sync = i.no_sync;
  }
  on_event-IsStuck checks (get_block_headers respond channel request) m i = record {
    marked = ground arith;
    no_request = ground arith;
    no_sync = ground arith;
  }

  continue-IsStuck :
      (r : Result ⊥ (Unit {0})) (f : Unit {0} → Exec (Manager tree H P R C) ⊥ (Unit {0}))
      (m : Manager tree H P R C)
      → IsStuck m
      → ((m' : Manager tree H P R C) → IsStuck m' → IsStuck (f tt m').1)
      → IsStuck (continue r f m).1
  continue-IsStuck (ok tt) f m i more = more m i
  continue-IsStuck (err e) f m i more = i
  continue-IsStuck panic f m i more = i

  poll_events-IsStuck :
      (checks : Bool) (events : List (ChainNetworkEvent R C)) (m : Manager tree H P R C)
      → IsStuck m
      → IsStuck (poll_events checks events m).1
  unfolding poll_events
  poll_events-IsStuck checks [] m i = i
  poll_events-IsStuck checks (event ∷ events) m i =
      continue-IsStuck (on_event checks event m).0 (λ _. poll_events checks events)
        (on_event checks event m).1 (on_event-IsStuck checks event m i)
        (poll_events-IsStuck checks events)

  poll_peers-IsStuck :
      {F : Failures} (outcome : Option (Result (RequestError F) (List P)))
      (m : Manager tree H P R C)
      → IsStuck m
      → IsStuck (poll_peers outcome m).1
  unfolding poll_peers
  poll_peers-IsStuck outcome m i = rw (i.no_request, poll_peers) i

  poll_sync_requests-IsStuck :
      {F : Failures} (peers : P → Peer F) (syncs : List (ℕ × List (List ℕ)))
      (m : Manager tree H P R C)
      → IsStuck m
      → IsStuck (poll_sync_requests peers syncs m).1
  unfolding poll_sync_requests
  poll_sync_requests-IsStuck peers [] m i = i
  poll_sync_requests-IsStuck peers ((n, answers) ∷ syncs) m i =
      rw (take_future-none n m.sync_requests i.no_sync, poll_sync_requests)
        (poll_sync_requests-IsStuck peers syncs m i)

  on_broadcasted-IsStuck :
      {F : Failures} (res : Result (RequestError F) (Unit {0}))
      (f : Unit {0} → Exec (Manager tree H P R C) ⊥ (Unit {0})) (m : Manager tree H P R C)
      → IsStuck m
      → ((m' : Manager tree H P R C) → IsStuck m' → IsStuck (f tt m').1)
      → IsStuck (continue (on_broadcasted res m).0 f (on_broadcasted res m).1).1
  on_broadcasted-IsStuck (ok done) f m i more = more m i
  on_broadcasted-IsStuck (err e) f m i more = more m i
  on_broadcasted-IsStuck panic f m i more = i

  poll_broadcasts-IsStuck :
      {F : Failures} (ended : List (ℕ × Result (RequestError F) (Unit {0})))
      (m : Manager tree H P R C)
      → IsStuck m
      → IsStuck (poll_broadcasts ended m).1
  unfolding poll_broadcasts
  poll_broadcasts-IsStuck [] m i = i
  poll_broadcasts-IsStuck ((n, res) ∷ ended) m i =
      elim (Option-cases (take_future n m.broadcast_requests)) [
        | inl e ↦ rw (e, poll_broadcasts) (poll_broadcasts-IsStuck ended m i)
        | inr ((b, others), e) ↦
            rw (e, poll_broadcasts)
              (on_broadcasted-IsStuck res (λ _. poll_broadcasts ended)
                (record m { broadcast_requests = others })
                (record { marked = i.marked; no_request = i.no_request; no_sync = i.no_sync })
                (poll_broadcasts-IsStuck ended))
      ]

  pub poll-IsStuck :
      {F : Failures} (checks : Bool) (peers : P → Peer F) (now : Ready F P R C)
      (m : Manager tree H P R C)
      → IsStuck m
      → IsStuck (poll checks peers now m).1
  unfolding poll
  poll-IsStuck checks peers now m i =
      continue-IsStuck (poll_events checks now.events m).0 _ (poll_events checks now.events m).1
        (poll_events-IsStuck checks now.events m i)
        λ m' i'.
          continue-IsStuck (poll_peers now.peers m').0 _ (poll_peers now.peers m').1
            (poll_peers-IsStuck now.peers m' i')
            λ m'' i''.
              continue-IsStuck (poll_sync_requests peers now.syncs m'').0 _
                (poll_sync_requests peers now.syncs m'').1
                (poll_sync_requests-IsStuck peers now.syncs m'' i'')
                (poll_broadcasts-IsStuck now.broadcasts)

  -- The future polled again and again. It ends where a call panics.
  unfoldable pub polls :
      {F : Failures}
      → Bool
      → (P → Peer F)
      → List (Ready F P R C)
      → Exec (Manager tree H P R C) ⊥ (Unit {0})
  polls checks peers [] m = (ok tt, m)
  polls checks peers (now ∷ calls) m =
      continue (poll checks peers now m).0 (λ _. polls checks peers calls)
        (poll checks peers now m).1

  pub polls-IsStuck :
      {F : Failures} (checks : Bool) (peers : P → Peer F) (calls : List (Ready F P R C))
      (m : Manager tree H P R C)
      → IsStuck m
      → IsStuck (polls checks peers calls m).1
  unfolding polls
  polls-IsStuck checks peers [] m i = i
  polls-IsStuck checks peers (now ∷ calls) m i =
      continue-IsStuck (poll checks peers now m).0 (λ _. polls checks peers calls)
        (poll checks peers now m).1 (poll-IsStuck checks peers now m i)
        (polls-IsStuck checks peers calls)

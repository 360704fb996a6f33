-- ===== src/Manager/Gossiped.antt =====
-- src/net/chain.rs and src/pool.rs: what all calls of `poll` make of the pool of a node. The pool
-- takes what is gossiped, and nothing else changes it.
use mathlib.Core.List.{Memᴰ}
use simb.Prelude.{ℕ, ◌≡◌, refl, ap, sym, subst, ◌∙◌, List, [], ◌∷◌, ◌++◌, Option, some, Bool, arith}
use simb.Prelude.Result.{Result, ok, err, panic}
use simb.Prelude.Exec.{Exec, continue}
use simb.Interface.{Header, Transaction, Failures, RequestError}
use simb.BlockTree.Types.{
  BlockTree, Error, AddedBlockResult, extend_tip, already_in_chain, invalid, block_header_not_found,
  database_error,
}
use simb.SyncHeader.{Peer, Output}
use simb.Pool.{Pool}
use simb.Pool.Batches.{add_batches, flat, IsConsistent, same_pool}
use simb.Pool.Invariant.{IsPool}
use simb.Prelude.BTreeMap
use simb.Prelude.Order.{str_ord}
use simb.Manager.{
  ChainNetworkEvent, incoming_new_block_header, incoming_transactions, get_block_headers, Manager,
  on_added, on_event, push_syncers, send_sync_requests,
}
use simb.Manager.Polling.{
  Ready, poll_events, poll_peers, add_headers, on_synced, poll_sync_requests, poll_broadcasts, poll,
}
use simb.Manager.Stuck.{polls}

abbrev pub event_batches : {R C : Type 0} → List (ChainNetworkEvent R C) → List (List Transaction)
event_batches [] = []
event_batches (incoming_transactions txs ∷ events) = txs ∷ event_batches events
event_batches (incoming_new_block_header header ∷ events) = event_batches events
event_batches (get_block_headers respond channel request ∷ events) = event_batches events

-- The batches that the calls find, in their order.
abbrev pub batches :
    {F : Failures} {P R C : Type 0} → List (Ready F P R C) → List (List Transaction)
batches [] = []
batches (now ∷ calls) = event_batches now.events ++ batches calls

add_batches-append :
    (xs ys : List (List Transaction)) (pool : Pool)
    → add_batches (xs ++ ys) pool ≡ add_batches ys (add_batches xs pool)
add_batches-append [] ys pool = refl
add_batches-append (txs ∷ xs) ys pool = add_batches-append xs ys _

event_batches-cons :
    {R C : Type 0} (event : ChainNetworkEvent R C) (events : List (ChainNetworkEvent R C))
    → event_batches (event ∷ events) ≡ event_batches (event ∷ []) ++ event_batches events
event_batches-cons (incoming_transactions txs) events = refl
event_batches-cons (incoming_new_block_header header) events = refl
event_batches-cons (get_block_headers respond channel request) events = refl

module _ {tree : BlockTree} {H P R C : Type 0} where
  -- A step that does not panic adds the batches to the pool, and does nothing else to it.
  abbrev pub Takes :
      List (List Transaction)
      → Manager tree H P R C
      → Result ⊥ (Unit {0}) × Manager tree H P R C
      → Type 0
  Takes xs m x = x.0 ≡ ok tt → x.1.pool ≡ add_batches xs m.pool

  continue-Takes :
      (xs ys : List (List Transaction)) (m : Manager tree H P R C) (r : Result ⊥ (Unit {0}))
      (m' : Manager tree H P R C) (rest : Unit {0} → Exec (Manager tree H P R C) ⊥ (Unit {0}))
      → Takes xs m (r, m')
      → Takes ys m' (rest tt m')
      → Takes (xs ++ ys) m (continue r rest m')
  continue-Takes xs ys m (ok tt) m' rest taken more e =
      more e ∙ ap (add_batches ys) (taken refl) ∙ sym (add_batches-append xs ys m.pool)
  continue-Takes xs ys m (err e') m' rest taken more e = absurd (cc e)
  continue-Takes xs ys m panic m' rest taken more e = absurd (cc e)

  on_added-Takes :
      (header : Header) (added : Result Error AddedBlockResult) (m : Manager tree H P R C)
      → (on_added header added m).1.pool ≡ m.pool
  unfolding on_added
  on_added-Takes header (ok extend_tip) m = refl
  on_added-Takes header (ok already_in_chain) m = refl
  on_added-Takes header (err block_header_not_found) m = ground arith
  on_added-Takes header (err invalid) m = refl
  on_added-Takes header (err (database_error e)) m = refl
  on_added-Takes header panic m = refl

  on_event-Takes :
      (checks : Bool) (event : ChainNetworkEvent R C) (m : Manager tree H P R C)
      → Takes (event_batches (event ∷ [])) m (on_event checks event m)
  unfolding on_event
  on_event-Takes checks (incoming_new_block_header header) m e =
      on_added-Takes header (tree.try_add_block_header header m.chain).0 _
  on_event-Takes checks (incoming_transactions transactions) m e = refl
  on_event-Takes checks (get_block_headers respond channel request) m e = ground arith

  poll_events-Takes :
      (checks : Bool) (events : List (ChainNetworkEvent R C)) (m : Manager tree H P R C)
      → Takes (event_batches events) m (poll_events checks events m)
  unfolding poll_events
  poll_events-Takes checks [] m = λ e. refl
  poll_events-Takes checks (event ∷ events) m =
      subst (λ xs. Takes xs m (poll_events checks (event ∷ events) m))
        (sym (event_batches-cons event events))
        (continue-Takes (event_batches (event ∷ [])) (event_batches events) m
          (on_event checks event m).0 (on_event checks event m).1
          (λ done. poll_events checks events) (on_event-Takes checks event m)
          (poll_events-Takes checks events (on_event checks event m).1))

  push_syncers-pool :
      (local header : Header) (peers : List P) (m : Manager tree H P R C)
      → (push_syncers local header peers m).1.pool ≡ m.pool
  unfolding push_syncers
  push_syncers-pool local header [] m = refl
  push_syncers-pool local header (p ∷ peers) m = grind (arith, push_syncers-pool local header peers)

  poll_peers-pool :
      {F : Failures} (outcome : Option (Result (RequestError F) (List P)))
      (m : Manager tree H P R C)
      → (poll_peers outcome m).1.pool ≡ m.pool
  unfolding poll_peers send_sync_requests
  poll_peers-pool outcome m = grind (arith, push_syncers-pool)

  add_headers-pool :
      (headers : List Header) (m : Manager tree H P R C) → (add_headers headers m).1.pool ≡ m.pool
  unfolding add_headers
  add_headers-pool [] m = refl
  add_headers-pool (header ∷ headers) m = ground (
    arith,
    add_headers-pool headers (record m { chain = (tree.try_add_block_header header m.chain).1 }),
  )

  on_synced-pool :
      {F : Failures} (output : Output F) (m : Manager tree H P R C)
      → (on_synced output m).1.pool ≡ m.pool
  unfolding on_synced
  on_synced-pool (ok headers) m = ground (arith, add_headers-pool headers m)
  on_synced-pool (err e) m = refl
  on_synced-pool panic m = refl

  poll_sync_requests-pool :
      {F : Failures} (peers : P → Peer F) (syncs : List (ℕ × List (List ℕ)))
      (m : Manager tree H P R C)
      → (poll_sync_requests peers syncs m).1.pool ≡ m.pool
  unfolding poll_sync_requests
  poll_sync_requests-pool peers [] m = refl
  poll_sync_requests-pool peers ((i, answers) ∷ syncs) m =
      grind (arith, poll_sync_requests-pool peers syncs, on_synced-pool)

  poll_broadcasts-pool :
      {F : Failures} (ended : List (ℕ × Result (RequestError F) (Unit {0})))
      (m : Manager tree H P R C)
      → (poll_broadcasts ended m).1.pool ≡ m.pool
  unfolding poll_broadcasts
  poll_broadcasts-pool [] m = refl
  poll_broadcasts-pool ((n, res) ∷ ended) m = grind (arith, poll_broadcasts-pool ended)

  poll-Takes :
      {F : Failures} (checks : Bool) (peers : P → Peer F) (now : Ready F P R C)
      (m : Manager tree H P R C)
      → Takes (event_batches now.events) m (poll checks peers now m)
  unfolding poll
  poll-Takes checks peers now m =
      let handled = poll_events-Takes checks now.events m in
      grind (
        arith,
        handled,
        poll_peers-pool now.peers,
        poll_sync_requests-pool peers now.syncs,
        poll_broadcasts-pool now.broadcasts,
      )

  pub polls-Takes :
      {F : Failures} (checks : Bool) (peers : P → Peer F) (calls : List (Ready F P R C))
      (m : Manager tree H P R C)
      → Takes (batches calls) m (polls checks peers calls m)
  unfolding polls
  polls-Takes checks peers [] m = λ e. refl
  polls-Takes checks peers (now ∷ calls) m =
      continue-Takes (event_batches now.events) (batches calls) m (poll checks peers now m).0
        (poll checks peers now m).1 (λ done. polls checks peers calls)
        (poll-Takes checks peers now m) (polls-Takes checks peers calls (poll checks peers now m).1)

module _ {tree tree' : BlockTree} {H P R C H' P' R' C' : Type 0} where
  -- Two nodes with the same pool, which is in order and has each transaction under its own hash,
  -- end up with the same pool, and each transaction that came under its hash there, if the same
  -- transactions come to both, no two different ones of them with one hash, and no call of `poll`
  -- panics: in whatever order, batches and repetitions they come, whatever else the calls find, and
  -- however often the nodes are polled.
  pub pools_agree :
      {F F' : Failures} (checks checks' : Bool) (peers : P → Peer F) (peers' : P' → Peer F')
      (calls : List (Ready F P R C)) (calls' : List (Ready F' P' R' C')) (m : Manager tree H P R C)
      (m' : Manager tree' H' P' R' C')
      → IsPool m.pool
      → m'.pool ≡ m.pool
      → (polls checks peers calls m).0 ≡ ok tt
      → (polls checks' peers' calls' m').0 ≡ ok tt
      → IsConsistent (flat (batches calls'))
      → ((tx : Transaction) → Memᴰ tx (flat (batches calls)) → Memᴰ tx (flat (batches calls')))
      → ((tx : Transaction) → Memᴰ tx (flat (batches calls')) → Memᴰ tx (flat (batches calls)))
      → ((polls checks peers calls m).1.pool ≡ (polls checks' peers' calls' m').1.pool)
        × ((tx : Transaction)
            → Memᴰ tx (flat (batches calls'))
            → BTreeMap.get tx.hash (polls checks' peers' calls' m').1.pool ≡ some tx)
  pools_agree checks checks' peers peers' calls calls' m m' p same runs runs' one forth back =
      let (agree, held) = same_pool m.pool (batches calls) (batches calls') p one forth back in
      let taken = polls-Takes checks peers calls m runs in
      let taken' =
        polls-Takes checks' peers' calls' m' runs' ∙ ap (add_batches (batches calls')) same in
      (taken ∙ agree ∙ sym taken', λ tx there. ap (BTreeMap.get tx.hash) taken' ∙ held tx there)

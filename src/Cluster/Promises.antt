-- ===== src/Cluster/Promises.antt =====
-- What holds of the headers that a node gets and sends: of what carries them, of members of a list,
-- and by rules that ask for less.
use simb.Prelude.{◌≡◌, refl, List, [], ◌∷◌, Bool, All, All-append, All-map}
use simb.Prelude.Result.{Result, ok, err, panic}
use simb.Interface.{Header, Failures}
use simb.BlockTree.Types.{BlockTree}
use simb.BlockTree.Contract.{Contract}
use simb.SyncHeader.{SyncHeader, Response, headers, failed}
use simb.SyncHeader.Collecting.{Answers}
use simb.Manager.{
  Manager, ChainNetworkEvent, incoming_new_block_header, incoming_transactions, get_block_headers,
  Broadcast, broadcast_block_header, broadcast_transactions, GetBlockHeadersResponse,
}
use simb.Manager.Polling.{Ready}
use simb.Manager.Rule.{Rule, Announces, Carries, Answered}
use simb.Manager.Running.{Runs, Goes}
use simb.Manager.Polled.{IsCall}
use simb.Cluster.{broadcast_headers, response_headers, outgoing}

module _ (Q : Header → Type 0) where
  broadcast_headers-All : (bs : List Broadcast) → All (Carries Q) bs → All Q (broadcast_headers bs)
  broadcast_headers-All [] all = tt
  broadcast_headers-All (broadcast_block_header h ∷ bs) all =
      (all.0, broadcast_headers-All bs all.1)
  broadcast_headers-All (broadcast_transactions ts ∷ bs) all = broadcast_headers-All bs all.1

  response_headers-All :
      {R C : Type 0} (rs : List (R × GetBlockHeadersResponse C))
      → All (Answered Q) rs
      → All Q (response_headers rs)
  response_headers-All [] all = tt
  response_headers-All ((r, response) ∷ rs) all =
      All-append Q response.headers _ all.0 (response_headers-All rs all.1)

module _ (Q Q' : Header → Type 0) (weaker : (h : Header) → Q h → Q' h) where
  pub Announces-map :
      {R C : Type 0} (event : ChainNetworkEvent R C) → Announces Q event → Announces Q' event
  Announces-map (incoming_new_block_header h) q = weaker h q
  Announces-map (incoming_transactions ts) q = tt
  Announces-map (get_block_headers r c request) q = tt

  pub Answers-map : {F : Failures} (x : Response F) → Answers Q x → Answers Q' x
  Answers-map (headers hs) all = All-map Q Q' weaker hs all
  Answers-map (failed e) all = tt

  pub Carries-map : (b : Broadcast) → Carries Q b → Carries Q' b
  Carries-map (broadcast_block_header h) q = weaker h q
  Carries-map (broadcast_transactions ts) q = tt

  pub IsCall-map :
      {F : Failures} {P R C : Type 0} (now : Ready F P R C) → IsCall Q now → IsCall Q' now
  IsCall-map now call =
      (All-map (Announces Q) (Announces Q') Announces-map now.events call.0, call.1, call.2)

module _ {tree : BlockTree} {checks : Bool} (contract : Contract tree checks) (F : Failures)
    {H P R C : Type 0} where
  -- A node that keeps to a rule keeps to one that asks for less.
  pub Runs-map :
      (rule rule' : Rule tree.genesis checks) (m : Manager tree H P R C)
      (i : Runs contract rule F m)
      → ((h : Header) → rule.Comes h → rule'.Comes h)
      → ((h : Header) → rule.Leaves h → rule'.Leaves h)
      → (rule.Holds i.view → rule'.Holds i.view)
      → Runs contract rule' F m
  Runs-map rule rule' m i comes leaves holds = record {
    view = i.view;
    shown = i.shown;
    holds = holds i.holds;
    collected =
        All-map _ _ (λ (s : SyncHeader H P) all. All-map _ _ comes s.queued_headers all)
          m.sync_requests i.collected;
    sent = All-map _ _ (Carries-map _ _ leaves) m.broadcast_requests i.sent;
    served = All-map _ _ (λ x all. All-map _ _ leaves x.1.headers all) m.responses i.served;
  }

  pub Goes-Runs :
      (rule : Rule tree.genesis checks) (x : Result ⊥ (Unit {0}) × Manager tree H P R C)
      → Goes contract rule F x
      → (x.0 ≡ ok tt) × Runs contract rule F x.1
  Goes-Runs rule (ok tt, m) i = (refl, i)
  Goes-Runs rule (err e, m) i = absurd i
  Goes-Runs rule (panic, m) i = absurd i

  pub outgoing-All :
      (rule : Rule tree.genesis checks) (m : Manager tree H P R C)
      → Runs contract rule F m
      → All rule.Leaves (outgoing m)
  outgoing-All rule m i =
      All-append rule.Leaves (broadcast_headers m.broadcast_requests) _
        (broadcast_headers-All rule.Leaves m.broadcast_requests i.sent)
        (response_headers-All rule.Leaves m.responses i.served)

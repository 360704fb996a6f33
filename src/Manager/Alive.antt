-- ===== src/Manager/Alive.antt =====
-- src/net/chain.rs: a node that is polled again and again, whatever the network sends, goes on.
use simb.Prelude.{ℕ, ◌≤◌, ◌≡◌, refl, sym, List, [], Bool, arith, All, All-map, All-always, subst}
use simb.Prelude.Result.{Result, ok, err, panic}
use simb.Interface.{Header, HeadersRequest, Failures}
use simb.BlockTree.Types.{BlockTree}
use simb.BlockTree.View.{View, add, check, put}
use simb.BlockTree.Contract.{Contract}
use simb.SyncHeader.{SyncHeader, Peer}
use simb.SyncHeader.Collecting.{Answers}
use simb.Manager.{Manager, Broadcast, broadcast_block_header, broadcast_transactions}
use simb.Manager.Polling.{Ready}
use simb.Manager.Stuck.{polls}
use simb.Manager.Rule.{IsUsual, Carries, Rule}
use simb.Manager.Running.{Goes}
use simb.Manager.Polled.{IsCall, polls-Goes}

add-tip : (g : Header) (checks : Bool) (v : View) (h : Header) → v.tip ≤ (add g checks v h).1.tip
unfolding add check put
add-tip g checks v h = ground arith

-- That the headers that come are usual is enough for a node to go on with a tip that never falls.
abbrev usual_rule : (genesis : Header) (checks : Bool) → ℕ → Rule genesis checks
usual_rule genesis checks low = record {
  Comes = IsUsual genesis;
  Leaves = λ h. Unit;
  Holds = λ v. low ≤ v.tip;
  Comes-IsUsual = λ h usual. usual;
  Comes-Leaves = λ h usual. tt;
  Holds-add = λ v h numbering holds usual. omega (arith, add-tip genesis checks v h);
  Holds-Leaves = λ v n numbering holds below. tt;
}

Carries-any : (b : Broadcast) → Carries (λ h. Unit) b
Carries-any (broadcast_block_header h) = tt
Carries-any (broadcast_transactions ts) = tt

module _ {tree : BlockTree} {checks : Bool} (contract : Contract tree checks) {H P R C : Type 0}
    (F : Failures) where
  Goes-ok :
      (low : ℕ) (x : Result ⊥ (Unit {0}) × Manager tree H P R C)
      → Goes contract (usual_rule tree.genesis checks low) F x
      → (x.0 ≡ ok tt) × (view : View) × contract.Shows x.1.chain view × (low ≤ view.tip)
  Goes-ok low (ok tt, m) i = (refl, i.view, i.shown, i.holds)
  Goes-ok low (err e, m) i = absurd i
  Goes-ok low (panic, m) i = absurd i

  -- A node whose chain shows a view, and whose downloads have not collected anything yet, goes on
  -- whatever the calls of `poll` find, and however often it is polled: as long as the numbers of
  -- the headers that the network sends are below the last u64, and not 0 but for the genesis
  -- header, and no request for peers and no broadcast panics, no call panics, the chain shows a
  -- view after them, and its tip is not below the one before.
  pub node_goes_on :
      (v : View) (peers : P → Peer F) (calls : List (Ready F P R C)) (m : Manager tree H P R C)
      → contract.Shows m.chain v
      → All (λ (s : SyncHeader H P). s.queued_headers ≡ []) m.sync_requests
      → ((p : P) (r : HeadersRequest) → Answers (IsUsual tree.genesis) (peers p r))
      → All (IsCall (IsUsual tree.genesis)) calls
      → ((polls checks peers calls m).0 ≡ ok tt)
        × (view : View) × contract.Shows (polls checks peers calls m).1.chain view
        × (v.tip ≤ view.tip)
  node_goes_on v peers calls m shown empty usual all = Goes-ok v.tip (polls checks peers calls m) (
      polls-Goes contract (usual_rule tree.genesis checks v.tip) F peers calls m usual all (record {
        view = v;
        shown = shown;
        holds = omega arith;
        collected =
            All-map _ _ (λ s e. subst (All (IsUsual tree.genesis)) (sym e) tt) m.sync_requests
              empty;
        sent = All-always _ Carries-any m.broadcast_requests;
        served = All-always _ (λ x. All-always _ (λ h. tt) x.1.headers) m.responses;
      }))

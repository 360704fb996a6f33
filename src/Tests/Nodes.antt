-- ===== src/Tests/Nodes.antt =====
-- The theorem about a node that is polled again and again, on the chain in memory.
use simb.Prelude.{ℕ, ◌≤◌, ◌≡◌, inr, List, [], ◌∷◌, some, true, arith}
use simb.Prelude.Result.{ok, err}
use simb.Interface.{timeout}
use simb.BlockTree.View.{View}
use simb.BlockTree.Shown.{Shows}
use simb.BlockTree.Refinement.{chain_contract}
use simb.SyncHeader.{Peer, headers}
use simb.Manager.{incoming_new_block_header, get_block_headers}
use simb.Manager.Polling.{Ready}
use simb.Manager.Stuck.{polls}
use simb.Manager.Alive.{node_goes_on}
use simb.Tests.Memory.{memory_laws}
use simb.Tests.Chains.{header, third, rival, view, rows-Shows}
use simb.Tests.ChainTheorems.{failures}
use simb.Tests.Managers.{idle}
use simb.Tests.Syncs.{request}

-- Peers that send one header whatever they are asked for.
abbrev stubborn : ℕ → Peer failures
stubborn p r = headers (third ∷ [])

-- A header far above the tip, a request, peers, a sync, a competing header, and a failure.
abbrev calls : List (Ready failures ℕ ℕ ℕ)
calls =
    record {
      events = incoming_new_block_header (header 9 1 []) ∷ get_block_headers 4 4 (request 0 9) ∷ [];
      peers = some (ok (5 ∷ 6 ∷ []));
      syncs = (0, (0 ∷ []) ∷ []) ∷ (1, [] ∷ []) ∷ [];
      broadcasts = (0, ok tt) ∷ [];
    }
    ∷ record {
      events = incoming_new_block_header rival ∷ [];
      peers = some (err timeout);
      syncs = (0, (0 ∷ []) ∷ []) ∷ [];
      broadcasts = [];
    }
    ∷ []

node_goes_on_example :
    ((polls true stubborn calls idle).0 ≡ ok tt)
    × (view' : View) × Shows memory_laws (polls true stubborn calls idle).1.chain view'
    × (2 ≤ view'.tip)
node_goes_on_example =
    node_goes_on (chain_contract memory_laws) failures view stubborn calls idle rows-Shows tt
      (λ p r. ((inr (omega arith), omega arith), tt))
      (
        (((inr (omega arith), omega arith), (tt, tt)), tt, (tt, tt)),
        ((((inr (omega arith), omega arith), tt), tt, tt), tt),
      )

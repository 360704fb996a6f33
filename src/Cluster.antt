-- ===== src/Cluster.antt =====
-- Many nodes of this program, one of which mines: src/net/chain.rs and src/blocktree.rs joined by a
-- network that delivers, in any order and grouping, any number of times or never, headers that some
-- node has sent, and no others.
pub mod OnChain
pub mod Promises
pub mod Invariant
pub mod Agreement
pub mod CatchingUp
use simb.Prelude.{ℕ, suc, List, [], ◌∷◌, ◌++◌, Bool, ◌==◌, if◌then◌else◌}
use mathlib.Core.List.{Memᴰ}
use simb.Prelude.Result.{Result, ok, err, panic}
use simb.Interface.{Header, HeadersRequest, Failures}
use simb.External.{System, Bytes}
use simb.BlockTree.Types.{BlockTree, MineBlockResult, mined, block_falling_behind}
use simb.BlockTree.Contract.{Contract}
use simb.BlockTree.Mining.{mine_block}
use simb.BlockTree.Opened.{genesis_view}
use simb.Pool.{Pool}
use simb.SyncHeader.{Peer}
use simb.SyncHeader.Collecting.{Answers}
use simb.Manager
use simb.Manager.{
  Manager, Broadcast, broadcast_block_header, broadcast_transactions, GetBlockHeadersResponse,
}
use simb.Manager.Polling.{Ready, poll}
use simb.Manager.Polled.{IsCall}

-- Node 0 mines. What was sent is all that any node has ever sent.
pub record Cluster (tree : BlockTree) (H P R C : Type 0) : Type 0 where
  pub nodes : ℕ → Manager tree H P R C
  pub sent : List Header

abbrev pub broadcast_headers : List Broadcast → List Header
broadcast_headers [] = []
broadcast_headers (broadcast_block_header h ∷ bs) = h ∷ broadcast_headers bs
broadcast_headers (broadcast_transactions ts ∷ bs) = broadcast_headers bs

abbrev pub response_headers : {R C : Type 0} → List (R × GetBlockHeadersResponse C) → List Header
response_headers [] = []
response_headers ((r, response) ∷ rs) = response.headers ++ response_headers rs

abbrev pub mined_headers : Result ⊥ MineBlockResult → List Header
mined_headers (ok (mined h)) = h ∷ []
mined_headers (ok block_falling_behind) = []
mined_headers (err e) = []
mined_headers panic = []

abbrev pub update : {A : Type 0} → (ℕ → A) → ℕ → A → ℕ → A
update f i x j = if j == i then x else f j

abbrev pub InFlight : List Header → Header → Type 0
InFlight sent h = Memᴰ h sent

module _ {tree : BlockTree} {H P R C : Type 0} where
  -- The headers of the broadcasts and of the responses of a node.
  abbrev pub outgoing : Manager tree H P R C → List Header
  outgoing m = broadcast_headers m.broadcast_requests ++ response_headers m.responses

  -- Node 0 mines, and broadcasts what it has mined.
  abbrev pub after_mining : System → ℕ → Bytes → ℕ → Cluster tree H P R C → Cluster tree H P R C
  after_mining sys now random_bytes random c =
      let result = mine_block sys tree {E = ⊥} now random_bytes random (c.nodes 0).chain in
      record {
        nodes = update c.nodes 0 (record (c.nodes 0) { chain = result.1 });
        sent = c.sent ++ mined_headers result.0;
      }

  -- A node is polled. What it sends is what is in progress before the ends of broadcasts are seen.
  abbrev pub after_poll :
      {F : Failures}
      → Bool
      → ℕ
      → (P → Peer F)
      → Ready F P R C
      → Cluster tree H P R C
      → Cluster tree H P R C
  after_poll checks i peers now c = record {
    nodes = update c.nodes i (poll checks peers now (c.nodes i)).1;
    sent = c.sent ++ outgoing (poll checks peers (record now { broadcasts = [] }) (c.nodes i)).1;
  }

  -- A node is started anew on the chain that it has.
  abbrev pub after_restart : ℕ → Pool → H → Cluster tree H P R C → Cluster tree H P R C
  after_restart i pool provider c = record c {
    nodes = update c.nodes i (Manager.new (c.nodes i).chain pool provider);
  }

module _ (sys : System) {tree : BlockTree} (contract : Contract tree sys.overflow_checks)
    (F : Failures) {H P R C : Type 0} where
  -- What can come about as long as no future that a node waits for panics, with the number of times
  -- that node 0 has mined.
  pub data Reach : ℕ → Cluster tree H P R C → Type 0 where
    start :
        (chains : ℕ → tree.Self) (pools : ℕ → Pool) (providers : ℕ → H)
        → ((i : ℕ) → contract.Shows (chains i) (genesis_view tree.genesis))
        → Reach 0
            (record { nodes = λ i. Manager.new (chains i) (pools i) (providers i); sent = [] })
    mines :
        {n : ℕ} {c : Cluster tree H P R C} (now : ℕ) (random_bytes : Bytes) (random : ℕ)
        → Reach n c
        → Reach (suc n) (after_mining sys now random_bytes random c)
    polls :
        {n : ℕ} {c : Cluster tree H P R C} (i : ℕ) (peers : P → Peer F) (now : Ready F P R C)
        → IsCall (InFlight c.sent) now
        → ((p : P) (r : HeadersRequest) → Answers (InFlight c.sent) (peers p r))
        → Reach n c
        → Reach n (after_poll sys.overflow_checks i peers now c)
    restarts :
        {n : ℕ} {c : Cluster tree H P R C} (i : ℕ) (pool : Pool) (provider : H)
        → Reach n c
        → Reach n (after_restart i pool provider c)

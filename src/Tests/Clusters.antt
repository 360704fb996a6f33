-- ===== src/Tests/Clusters.antt =====
-- Two nodes in memory, one of which mines twice; the other one hears of the second header only.
use simb.Prelude.{
  ℕ, ◌≤◌, ◌≡◌, refl, [], ◌∷◌, map, replicate, none, some, arith, leb, if◌then◌else◌, str_eq, true,
  false,
}
use mathlib.Core.List.Memᴰ.{head, tail}
use simb.Prelude.Result.{ok}
use simb.Prelude.BTreeMap
use simb.Interface.{Header}
use simb.BlockTree.Chain.{chain}
use simb.BlockTree.Reads.{genesis}
use simb.BlockTree.Mining.{mine_block, mined_header}
use simb.BlockTree.Hash
use simb.BlockTree.Links.{IsLinked}
use simb.BlockTree.Opened.{genesis_view}
use simb.BlockTree.Refinement.{chain_contract}
use simb.BlockTree.Shown.{Shows}
use simb.BlockTree.View.{View, found}
use simb.SyncHeader.{Peer, failed}
use simb.Interface.{timeout}
use simb.Pool.{contains}
use simb.Manager
use simb.Manager.{Manager, incoming_new_block_header, on_event}
use simb.Manager.Polling.{Ready, poll, poll_events, poll_peers, poll_sync_requests}
use simb.Manager.Synced.{first_sync}
use simb.Manager.FromNode.{served}
use simb.Cluster.{Cluster, Reach, start, mines, polls, after_mining, after_poll}
use simb.Cluster.Agreement.{one_chain}
use simb.Cluster.CatchingUp.{catches_up}
use simb.Tests.Memory.{Rows, memory, memory_laws, encode, hashes-put}
use simb.Tests.Chains.{run, genesis_header}
use simb.Tests.ChainTheorems.{failures}

abbrev fresh : Rows
fresh = record { headers = (0, encode genesis_header) ∷ []; hashes = (genesis_header.hash, 0) ∷ [] }

fresh-Shows : Shows memory_laws fresh (genesis_view (chain memory).genesis)
unfolding BTreeMap.get BTreeMap.put genesis str_eq
fresh-Shows = record {
  up = (tt, tt);
  rows = λ n. ground arith;
  hashes = λ s. hashes-put (record { headers = []; hashes = [] }) genesis_header.hash s 0;
  numbering = record { numbered = λ n le. ground arith; fits = omega arith };
}

abbrev Nodes : Type 0
Nodes = Cluster (chain memory) (Unit {0}) ℕ ℕ ℕ

abbrev at_start : Nodes
at_start = record { nodes = λ i. Manager.new fresh [] tt; sent = [] }

abbrev mined_twice : Nodes
mined_twice = after_mining memory 6 [] 9 (after_mining memory 5 [] 8 at_start)

abbrev first_header : Header
first_header = record {
  number = 1;
  parent_hash = genesis_header.hash;
  state_root = [];
  timestamp = 0;
  nonce = 8;
  hash = 1 ∷ 8 ∷ [];
}

abbrev second_header : Header
second_header = record {
  number = 2;
  parent_hash = first_header.hash;
  state_root = [];
  timestamp = 0;
  nonce = 9;
  hash = 2 ∷ 9 ∷ [];
}

mined_sent : mined_twice.sent ≡ first_header ∷ second_header ∷ []
unfolding run mine_block mined_header Hash.mine_block Manager.new
mined_sent = refl

abbrev heard : Ready failures ℕ ℕ ℕ
heard = record {
  events = incoming_new_block_header second_header ∷ [];
  peers = none;
  syncs = [];
  broadcasts = [];
}

-- The node that mines serves its chain.
abbrev silent : ℕ → Peer failures
silent p r = failed timeout

abbrev two_nodes : Nodes
two_nodes = after_poll true 1 silent heard mined_twice

reached : Reach memory (chain_contract memory_laws) failures 2 two_nodes
unfolding run mine_block mined_header Hash.mine_block Manager.new
reached =
    polls 1 silent heard ((tail (head refl), tt), tt, tt) (λ p r. tt)
      (mines 6 [] 9 (mines 5 [] 8 (start (λ i. fresh) (λ i. []) (λ i. tt) (λ i. fresh-Shows))))

abbrev serving : ℕ → Peer failures
serving p = served failures (chain memory) true (two_nodes.nodes 0).chain

one_chain_example :
    (main : View) × IsLinked main
    × (main.tip ≡ 2)
    × (main.block 0 ≡ genesis memory)
    × ((chain memory).tip (two_nodes.nodes 0).chain ≡ ok (main.block 2))
    × ((i : ℕ)
        → (t : ℕ) × (t ≤ 2)
          × ((chain memory).tip (two_nodes.nodes i).chain ≡ ok (main.block t))
          × ((k : ℕ)
              → (chain memory).get_header_by_block_number (two_nodes.nodes i).chain k
                ≡ found (if leb k t then some (main.block k) else none)))
one_chain_example = one_chain memory (chain_contract memory_laws) failures (omega arith) reached

catches_up_example :
    let asked = (poll_peers {F = failures} (some (ok (0 ∷ []))) (two_nodes.nodes 1)).1 in
    let calls = map first_sync (replicate 3 (replicate 10 0 ∷ [])) in
    let synced = poll_sync_requests serving calls asked in
    (synced.0 ≡ ok tt)
    × (synced.1.pending_sync_request ≡ false)
    × (synced.1.sync_requests ≡ [])
    × ((k : ℕ)
        → (chain memory).get_header_by_block_number synced.1.chain k
          ≡ (chain memory).get_header_by_block_number (two_nodes.nodes 0).chain k)
unfolding run mine_block mined_header Hash.mine_block Manager.new poll poll_events on_event contains
catches_up_example =
    catches_up memory (chain_contract memory_laws) failures (omega arith) reached 1 second_header
      genesis_header serving 0 refl refl refl refl refl

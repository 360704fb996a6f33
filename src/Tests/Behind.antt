-- ===== src/Tests/Behind.antt =====
-- A node that asks for two thousand headers a node that has two.
use simb.SyncHeader.{Peer}
use simb.Prelude.{ℕ, ◌≡◌, refl, [], ◌∷◌, some, true, replicate, arith}
use simb.Prelude.Result.{ok}
use simb.BlockTree.Chain.{chain}
use simb.BlockTree.Refinement.{chain_contract}
use simb.Manager.Polling.{poll_peers, poll_sync_requests}
use simb.Manager.Stuck.{IsStuck, polls}
use simb.Manager.FromNode.{served}
use simb.Manager.Behind.{behind_no_sync}
use simb.Tests.Memory.{memory, memory_laws}
use simb.Tests.Chains.{header, rows, view, rows-Shows}
use simb.Tests.ChainTheorems.{failures}
use simb.Tests.Managers.{Node, new_rows, new_view, new_rows-Shows, joining, event_calls}

abbrev far_joining : Node
far_joining = record joining { closest_peers_request_for_sync = some (header 2000 0 []) }

abbrev peers : ℕ → Peer failures
peers p = served failures (chain memory) true rows

behind_no_sync_example :
    let asked = (poll_peers {F = failures} (some (ok (5 ∷ []))) far_joining).1 in
    let failed = poll_sync_requests peers ((0, []) ∷ (0, replicate 10 0 ∷ []) ∷ []) asked in
    (failed.0 ≡ ok tt)
    × (failed.1.chain ≡ new_rows)
    × IsStuck (polls true peers event_calls failed.1).1
behind_no_sync_example =
    behind_no_sync (chain_contract memory_laws) (chain_contract memory_laws) failures far_joining
      new_view (header 2000 0 []) rows view peers 5 1 event_calls new_rows-Shows refl refl refl refl
      rows-Shows (omega arith) (omega arith) (omega arith)

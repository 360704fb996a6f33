-- ===== src/Tests/Managers.antt =====
-- The theorems about the manager, on the chain in memory.
use simb.Prelude.{
  ℕ, ◌+◌, ◌≡◌, ◌≢◌, refl, ap, inl, inr, List, [], ◌∷◌, map, none, some, arith, replicate, true,
  false, ◌==◌, if◌then◌else◌,
}
use simb.Prelude.Result.{ok, err}
use simb.Interface.{Header, timeout}
use simb.BlockTree.View.{View, IsNumbered}
use simb.BlockTree.Chain.{chain}
use simb.BlockTree.Reads.{genesis}
use simb.BlockTree.Shown.{Shows}
use simb.BlockTree.Links.{IsLinked}
use simb.BlockTree.Refinement.{chain_contract}
use simb.SyncHeader.{
  SyncHeader, on_header_response, send_requests, send_loop, finish, poll, take_responses, take_at,
  on_completion, ready,
}
use simb.SyncHeader.Requests.{blocks}
use simb.SyncHeader.Answers.{honest}
use simb.Pool.{contains}
use simb.Manager.{broadcast_block_header, Manager, on_event, incoming_new_block_header}
use simb.Manager.Polling.{Ready, poll_peers, poll_sync_requests}
use simb.Manager.Stuck.{IsStuck, polls}
use simb.Manager.Syncing.{no_peers_no_sync}
use simb.Manager.CatchUp.{Extends}
use simb.Manager.Synced.{first_sync}
use simb.Manager.FromNode.{served, sync_from_node}
use simb.Prelude.BTreeMap
use simb.Prelude.Order.{str_ord}
use simb.Manager.Announced.{far_header_once, after}
use simb.Manager.Overlap.{sync_overlap}
use simb.Tests.Memory.{Rows, encode, memory, memory_laws}
use simb.Tests.Chains.{genesis_header, header, first, second, third, rows, view, rows-Shows}
use simb.Tests.ChainTheorems.{failures}
use simb.Tests.Syncs.{request, both_out}

abbrev pub Node : Type 0
Node = Manager (chain memory) Unit ℕ ℕ ℕ

-- A node that is in sync.
abbrev pub idle : Node
idle = record {
  chain = rows;
  provider = tt;
  pool = [];
  sync_requests = [];
  broadcast_requests = [];
  closest_peers_request_for_sync = none;
  pending_sync_request = false;
  broadcasted_headers = [];
  responses = [];
}

abbrev pub fourth : Header
fourth = header 4 1 third.hash

-- A node that has asked for peers, for `fourth`.
abbrev pub asking : Node
asking = record idle { closest_peers_request_for_sync = some fourth; pending_sync_request = true }

-- A node with one sync in progress.
abbrev syncing : Node
syncing = record idle { sync_requests = both_out ∷ []; pending_sync_request = true }

-- The chain of a peer that is two headers ahead.
abbrev ahead : View
ahead = record {
  tip = 4;
  block = λ n.
      if n == 0
      then genesis_header
      else if n == 1
      then first
      else if n == 2
      then second
      else if n == 3
      then third
      else fourth;
  number_of = λ s. none;
}

ahead-IsNumbered : IsNumbered ahead
ahead-IsNumbered = record { numbered = λ n le. ground arith; fits = omega arith }

ahead-IsLinked : IsLinked ahead
ahead-IsLinked n below = ground arith

abbrev pub event_calls : List (Ready failures ℕ ℕ ℕ)
event_calls =
    record {
      events = incoming_new_block_header fourth ∷ [];
      peers = none;
      syncs = [];
      broadcasts = [];
    }
    ∷ []

fourth_not_genesis : fourth ≢ (chain memory).genesis
unfolding genesis
fourth_not_genesis e = absurd (omega (arith, ap (λ h. h.number) e))

ninth_not_genesis : header 9 0 [] ≢ (chain memory).genesis
unfolding genesis
ninth_not_genesis e = absurd (omega (arith, ap (λ h. h.number) e))

far_header_once_example :
    (after (chain_contract memory_laws) view fourth idle).broadcast_requests
    ≡ broadcast_block_header fourth ∷ []
unfolding contains
far_header_once_example =
    (far_header_once (chain_contract memory_laws) view fourth idle rows-Shows
      (record { marked = inl refl }) fourth_not_genesis (omega arith) (omega arith)).2

no_peers_no_sync_example :
    IsStuck
      (polls true
        (λ p. honest ahead.block)
        event_calls
        (poll_peers {F = failures} (some (err timeout)) asking).1).1
no_peers_no_sync_example =
    no_peers_no_sync true (λ p. honest ahead.block) asking fourth (err timeout) event_calls refl
      refl refl (inr (timeout, refl))

-- A node with no block but the first, which has asked for peers, for `second`.
abbrev pub new_rows : Rows
new_rows = record {
  headers = (0, encode genesis_header) ∷ [];
  hashes = (genesis_header.hash, 0) ∷ [];
}

abbrev pub new_view : View
new_view = record {
  tip = 0;
  block = λ n. genesis_header;
  number_of = λ s. BTreeMap.get s new_rows.hashes;
}

pub new_rows-Shows : Shows memory_laws new_rows new_view
unfolding BTreeMap.get
new_rows-Shows = record {
  up = (tt, tt);
  rows = λ n. ground arith;
  hashes = λ s. refl;
  numbering = record { numbered = λ n le. ground arith; fits = omega arith };
}

abbrev pub joining : Node
joining = record idle {
  chain = new_rows;
  closest_peers_request_for_sync = some second;
  pending_sync_request = true;
}

view-IsLinked : IsLinked view
view-IsLinked n le = ground arith

sync_from_node_example :
    let asked = (poll_peers {F = failures} (some (ok (5 ∷ []))) joining).1 in
    let calls = map first_sync (replicate 3 (replicate 10 0 ∷ [])) in
    (m' : Node) × (poll_sync_requests (λ p. served failures (chain memory) true rows) calls asked
      ≡ (ok tt, m'))
    × (m'.pending_sync_request ≡ false)
    × (m'.sync_requests ≡ [])
    × (view' : View) × Shows memory_laws m'.chain view'
    × Extends view new_view 2 view'
sync_from_node_example =
    sync_from_node (chain_contract memory_laws) (chain_contract memory_laws) failures joining
      new_view second rows view (λ p. served failures (chain memory) true rows) 5 new_rows-Shows
      refl refl refl rows-Shows view-IsLinked (omega arith) (omega arith) refl

-- Two syncs in progress that have asked for the two headers that the peer has more.
abbrev last_out : SyncHeader Unit ℕ
last_out = record both_out {
  in_progress_queue = request 3 2 ∷ [];
  local_head_block = 4;
  target_head = 4;
}

last_answer :
    (poll {F = failures} (honest ahead.block) ((0 ∷ []) ∷ []) last_out).0
    ≡ ready (ok (blocks ahead.block (view.tip + 1) 2))
unfolding poll take_responses take_at on_completion on_header_response send_requests send_loop
    finish blocks
last_answer = refl

sync_overlap_example :
    let start : Node = record idle { sync_requests = last_out ∷ last_out ∷ [] } in
    let m1 =
      (poll_sync_requests {F = failures}
        (λ p. honest ahead.block)
        ((0, (0 ∷ []) ∷ []) ∷ [])
        start).1 in
    let m2 = (on_event true (incoming_new_block_header (header 9 0 [])) m1).1 in
    (m2.closest_peers_request_for_sync ≡ some (header 9 0 [])) × (m2.sync_requests ≡ last_out ∷ [])
sync_overlap_example =
    sync_overlap (chain_contract memory_laws)
      (record idle { sync_requests = last_out ∷ last_out ∷ [] }) view (λ p. honest ahead.block)
      last_out last_out ((0 ∷ []) ∷ []) ahead 2 (header 9 0 []) refl refl last_answer rows-Shows
      ahead-IsNumbered ahead-IsLinked (omega arith) refl ninth_not_genesis (omega arith)
      (omega arith)

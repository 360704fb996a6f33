-- ===== src/Tests/Served.antt =====
-- The way of a request for headers between two nodes, on the swarm in memory.
use simb.Prelude.{ℕ, ◌+◌, ◌-◌, ◌≡◌, refl, inr, List, [], ◌∷◌, ◌++◌, min, some, true}
use simb.Prelude.Result.{ok}
use simb.BlockTree.Refinement.{chain_contract}
use simb.SyncHeader.Requests.{blocks}
use simb.Manager.{ChainNetworkEvent, GetBlockHeadersResponse, on_event, take_future}
use simb.Network.{Receivers, new}
use simb.Network.Events.{handle_event, handle_request_response_header_event}
use simb.Network.Run
use simb.Network.Messages
use simb.Network.Account.{tally}
use simb.Interface.{Header}
use simb.Provider.{NetworkProvider, Replies, get_headers}
use simb.Provider.Broadcasting.{sent_with_channel}
use simb.Provider.Received.{headers_of, received}
use simb.Network.Run.{Ready, run, select}
use simb.Network.Awaited.{takes}
use simb.Network.Kept.{touches}
use simb.Network.Answered.{requested, answered, replied}
use simb.Network.Served.{incoming, told, responded, headers_come}
use simb.Tests.Memory.{memory_laws}
use simb.Tests.Chains.{view, rows-Shows}
use simb.Tests.Managers.{idle}
use simb.Tests.Nets.{swarm_net, all_there}
use simb.Tests.Networks.{start, wanted, request, other_request}

-- Another request comes before the first one is answered.
abbrev more_come : List (Receivers × Ready swarm_net)
more_come = (all_there, incoming swarm_net 92 wanted 4) ∷ []

abbrev provider : NetworkProvider swarm_net
provider = record { command_send = []; received = true; next_channel = 70 }

headers_come_example :
    let asking = (run swarm_net other_request (requested swarm_net request all_there start)).1 in
    let serving = (run swarm_net more_come (told swarm_net 91 wanted 3 start)).1 in
    (event : ChainNetworkEvent ℕ ℕ) × (response : GetBlockHeadersResponse ℕ) × (i : ℕ)
    × (others : List ℕ) × ((answers : Replies swarm_net (List Header))
        → (get_headers swarm_net 5 wanted answers provider).1
          ≡ sent_with_channel
              (λ tx. Messages.get_headers (record { peer = 5; request = wanted; sender = tx }))
              provider)
    × (select swarm_net all_there (incoming swarm_net 91 wanted 3) start ≡ (
      ok Run.waiting,
      record start { events = [] ++ event ∷ []; incoming_peer_requests = [] ++ 91 ∷ [] },
    ))
    × (on_event true event idle
        ≡ (ok tt, record idle { responses = idle.responses ++ (91, response) ∷ [] }))
    × (response.channel ≡ 3)
    × (response.headers ≡ blocks view.block 1 (min 2 (view.tip + 1 - 1)))
    × (take_future i serving.incoming_peer_requests ≡ some (91, others))
    × (select swarm_net all_there (Run.response i (some (inr response))) serving
        ≡ (ok Run.waiting, responded swarm_net others response serving))
    × (answered swarm_net all_there 95 0 (inr response.headers) asking
        ≡ (ok Run.waiting, replied swarm_net 0 70 (ok response.headers) asking))
    × ((get_headers swarm_net 5 wanted
          (received swarm_net
            (headers_of swarm_net)
            (replied swarm_net 0 70 (ok response.headers) asking).outcomes)
          provider).0
        ≡ ok response.headers)
unfolding takes tally touches select new run take_future handle_event
    handle_request_response_header_event
headers_come_example =
    headers_come swarm_net (chain_contract memory_laws) 5 wanted provider all_there all_there
      all_there all_there start start idle view 3 91 95 other_request more_come rows-Shows refl refl
      (refl, tt) (refl, (refl, tt)) refl refl

-- ===== src/Tests/Networks.antt =====
-- The theorems about the network manager, the provider and the client, on the swarm in memory.
use simb.Prelude.{
  ℕ, ◌≡◌, refl, inl, inr, List, [], ◌∷◌, ◌++◌, none, some, true, false, arith, Str, str_eq,
}
use simb.Prelude.Result.{ok, err, panic}
use simb.Prelude.HashMap.{get, without}
use simb.Interface.{Header, HeadersRequest, timeout}
use simb.External.{Bytes}
use simb.BlockTree.Chain.{chain, mine_and_broadcast_block}
use simb.BlockTree.View.{put}
use simb.BlockTree.Shown.{Shows}
use simb.BlockTree.Refinement.{chain_contract}
use simb.Manager
use simb.Manager.{ChainNetworkEvent, push_broadcast, on_event}
use simb.Network.{Receivers, NetworkManager, new, handle_command}
use simb.Network.Messages
use simb.Network.Messages.{GetHeadersRequest}
use simb.Network.Events.{handle_event, handle_mdns_event}
use simb.Network.Run
use simb.Network.Run.{Ended, Ready, run, select}
use simb.Network.Account.{Adds, tally}
use simb.Network.Settled.{asked, run-Adds}
use simb.Network.Total.{readable, run-total}
use simb.Network.Mined.{block_travels}
use simb.Network.Kept.{touches}
use simb.Network.Answered.{answered, replied, requested, request_answered}
use simb.Network.Panics.{peer_panics}
use simb.Provider
use simb.Provider.{NetworkProvider, Replies, broadcast_provider}
use simb.Provider.Broadcasting.{sent_with_channel}
use simb.BlockTree.Mining.{mined_header}
use simb.Provider.Dialing.{Dials, dial_lem}
use simb.Tests.Memory.{memory, memory_laws, encode}
use simb.Tests.Chains.{second, third, rows, view, rows-Shows}
use simb.Tests.Managers.{idle}
use simb.Tests.Nets.{swarm_net, swarm_codec, swarm_delivery, swarm, all_there}

abbrev pub start : NetworkManager swarm_net
start = new swarm_net swarm

abbrev pub wanted : HeadersRequest
wanted = record { start_block = 1; limit = 2 }

abbrev pub request : GetHeadersRequest swarm_net
request = record { peer = 5; request = wanted; sender = 70 }

-- Two dials to one peer, a request for headers, a request for peers, their answers, a gossiped
-- header, and the end of the commands.
abbrev script : List (Receivers × Ready swarm_net)
script =
    (all_there, Run.command (some (Messages.dial 4 44 71)))
    ∷ (all_there, Run.command (some (Messages.dial 4 45 72)))
    ∷ (all_there, Run.command (some (Messages.get_headers request)))
    ∷ (all_there, Run.command (some (Messages.get_closest_peers 73)))
    ∷ (all_there, Run.bootstrap)
    ∷ (all_there, Run.event 90 (Messages.connection_established 4 true))
    ∷ (all_there, Run.event 90 (Messages.request_response (Messages.request_message wanted 3)))
    ∷ (all_there, Run.response 0 none)
    ∷ (all_there, Run.event 91 (Messages.request_response (Messages.response_message 0 [])))
    ∷ (all_there, Run.event 91 (Messages.gossipsub_message Messages.block_header (encode third)))
    ∷ (all_there, Run.command none)
    ∷ []

run-Adds_example : Adds swarm_net 72 (asked swarm_net 72 script) start (run swarm_net script start)
unfolding new
run-Adds_example = run-Adds swarm_net 72 script start (tt, tt, tt, tt)

asks_once : asked swarm_net 72 script ≡ 1
unfolding asked
asks_once = refl

-- What became of the channels: the second dial was dropped, and the request for peers waits.
outcomes_lem :
    (run swarm_net script start).1.outcomes
    ≡ (72, none)
      ∷ (71, some (Messages.unit_reply (ok tt)))
      ∷ (70, some (Messages.headers_reply (ok [])))
      ∷ []
unfolding run new get without handle_mdns_event str_eq
outcomes_lem = refl

run-total_example : (e : Ended) × ((run swarm_net script start).0 ≡ ok e)
unfolding readable str_eq
run-total_example = run-total swarm_net script start (
  refl,
  (λ k. refl),
  refl,
  (
    refl,
    (λ k. refl),
    refl,
    (
      refl,
      (λ k. refl),
      refl,
      (
        refl,
        (λ k. refl),
        refl,
        (
          refl,
          (λ k. refl),
          refl,
          (
            refl,
            (λ k. refl),
            refl,
            (
              refl,
              (λ k. refl),
              refl,
              (
                refl,
                (λ k. refl),
                refl,
                (refl, (λ k. refl), refl, (refl, (λ k. refl), refl, (refl, (λ k. refl), refl, tt))),
              ),
            ),
          ),
        ),
      ),
    ),
  ),
)

-- A node that mines, on a channel that brings back an error, and one with the same chain.
abbrev block : Header
block = mined_header memory (chain memory) second 3 1705551200 [] 4

abbrev late : Replies swarm_net (Unit {0})
late tx = some (err timeout)

block_travels_example :
    let (result, (db, provider)) =
      mine_and_broadcast_block memory
        (broadcast_provider swarm_net late)
        1705551200
        []
        4
        (rows, Provider.new swarm_net) in
    (message : Str × Bytes) × (event : ChainNetworkEvent ℕ ℕ) × (chain_b : (chain memory).Self)
    × (result ≡ err timeout)
    × Shows memory_laws db (put view block)
    × (provider
        ≡ sent_with_channel
            (λ tx. Messages.broadcast_block_header block tx)
            (Provider.new swarm_net))
    × ((handle_command swarm_net all_there
          (Messages.broadcast_block_header block 0)
          start).1.swarm.published
        ≡ [] ++ message ∷ [])
    × (handle_event swarm_net all_there 90 (Messages.gossipsub_message message.0 message.1) start
        ≡ (ok tt, record start { events = [] ++ event ∷ [] }))
    × Shows memory_laws chain_b (put view block)
    × (on_event true event idle ≡ (
      ok tt,
      push_broadcast (Manager.broadcast_block_header block) (record idle { chain = chain_b }),
    ))
unfolding new Provider.new
block_travels_example =
    block_travels memory_laws swarm_codec swarm_delivery (chain_contract memory_laws) rows view view
      1705551200 [] 4 (Provider.new swarm_net) late all_there all_there 90 start start idle
      rows-Shows (omega arith) refl refl refl rows-Shows refl refl

-- Another request goes out before the answer comes.
abbrev pub other_request : List (Receivers × Ready swarm_net)
other_request =
    (all_there, Run.command (some (Messages.get_headers (record request { sender = 75 }))))
    ∷ (all_there, Run.event 90 (Messages.request_response (Messages.outbound_failure 1 tt)))
    ∷ []

request_answered_example :
    let asked_for = requested swarm_net request all_there start in
    let m = (run swarm_net other_request asked_for).1 in
    let after = replied swarm_net 0 70 (ok (third ∷ [])) m in
    (answered swarm_net all_there 91 0 (inr (third ∷ [])) m ≡ (ok Run.waiting, after))
    × (answered swarm_net all_there 92 0 (inl tt) after ≡ (ok Run.waiting, after))
unfolding touches select new
request_answered_example =
    request_answered swarm_net request all_there start other_request all_there all_there 91 92
      (inr (third ∷ [])) (inl tt) (refl, (refl, tt)) refl

-- A request is out whose receiver is gone.
abbrev all_gone : Receivers
all_gone = record { chain = true; awaits = λ k. false }

peer_panics_example :
    (run swarm_net
      ((other_request
          ++ (all_gone, Run.event 91 (Messages.request_response (Messages.response_message 0 [])))
            ∷ (
              all_there,
              Run.event 92 (Messages.gossipsub_message Messages.block_header (encode third)),
            )
            ∷ [])
        ++ other_request)
      (requested swarm_net request all_there start)).0
    ≡ panic
unfolding new touches select run handle_command handle_event get without
peer_panics_example =
    peer_panics swarm_codec request all_there start other_request other_request all_gone all_there
      91 92 (inr []) (encode third) (refl, (refl, tt)) refl

abbrev provider : NetworkProvider swarm_net
provider = record { command_send = []; received = true; next_channel = 71 }

dial_lem_example :
    ((replies : Provider.Replies swarm_net (Unit {0}))
      → (Provider.dial swarm_net 4 44 replies provider).1
        ≡ record provider { command_send = Messages.dial 4 44 71 ∷ []; next_channel = 72 })
    × Dials swarm_net 4 44 provider start all_there 90
        (handle_command swarm_net all_there (Messages.dial 4 44 71) start).1
unfolding new tally
dial_lem_example = dial_lem swarm_net 4 44 provider start all_there 90 refl refl refl

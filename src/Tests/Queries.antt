-- ===== src/Tests/Queries.antt =====
-- A query for the closest peers, on the swarm in memory.
use simb.Prelude.{true, ℕ, ◌≡◌, refl, List, [], ◌∷◌, none, some}
use simb.Prelude.Result.{ok}
use simb.Prelude.HashMap.{get, without}
use simb.Network.{Receivers, new, handle_command}
use simb.Network.Messages
use simb.Network.Events.{handle_event, handle_kad_event}
use simb.Network.Run
use simb.Network.Run.{Ready, run, select}
use simb.Network.Account.{tally}
use simb.Network.Queried.{concerns}
use simb.Network.Peers.{queried, told_peers, asked, peers_come}
use simb.Provider.{NetworkProvider, Replies, get_closest_peers}
use simb.Provider.Broadcasting.{sent_with_channel}
use simb.Provider.Received.{peers_of, received}
use simb.Tests.Nets.{swarm_net, all_there}
use simb.Tests.Networks.{start}

abbrev provider : NetworkProvider swarm_net
provider = record { command_send = []; received = true; next_channel = 70 }

-- Another query goes out, and ends, before the first one does.
abbrev other_query : List (Receivers × Ready swarm_net)
other_query =
    (all_there, Run.command (some (Messages.get_closest_peers 75)))
    ∷ (
      all_there,
      Run.event 90
          (Messages.kad (Messages.outbound_query_progressed 1 Messages.closest_peers_timeout)),
    )
    ∷ []

peers_come_example :
    let asking = (run swarm_net other_query (asked swarm_net provider all_there start)).1 in
    let after = told_peers swarm_net 0 70 (ok (4 ∷ 5 ∷ [])) asking in
    ((answers : Replies swarm_net (List ℕ))
      → (get_closest_peers swarm_net answers provider).1
        ≡ sent_with_channel Messages.get_closest_peers provider)
    × (queried swarm_net all_there 91 0 (some (4 ∷ 5 ∷ [])) asking ≡ (ok Run.waiting, after))
    × ((get_closest_peers swarm_net
          (received swarm_net (peers_of swarm_net) after.outcomes)
          provider).0
        ≡ ok (4 ∷ 5 ∷ []))
    × (queried swarm_net all_there 92 0 none after ≡ (ok Run.waiting, after))
unfolding new tally concerns run select handle_command handle_event handle_kad_event get without
peers_come_example =
    peers_come swarm_net provider all_there start other_query all_there all_there 91 92
      (some (4 ∷ 5 ∷ [])) none refl (refl, (refl, tt)) refl refl

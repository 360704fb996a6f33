-- ===== src/Network/Peers.antt =====
-- src/net/provider.rs and src/net/network.rs: a query for the closest peers, from the caller to its
-- answer.
use simb.Prelude.{ℕ, ◌≡◌, refl, ap, ◌∙◌, List, ◌∷◌, [], ◌++◌, Option, none, some, true, arith}
use simb.Prelude.Result.{Result, ok, err}
use simb.Prelude.HashMap.{without, get-insert, get-without, without-none, same_refl}
use simb.Interface.{Failures, RequestError, timeout}
use simb.Network.{Receivers, NetworkManager, handle_command}
use simb.Network.Swarm.{Libp2p}
use simb.Network.Messages
use simb.Network.Messages.{QueryResult, peers_reply}
use simb.Network.Events.{handle_event, handle_kad_event}
use simb.Network.Run.{Ended, waiting, Ready, select, run}
use simb.Network.Run
use simb.Network.Account.{tally}
use simb.Network.Queried.{sender_of_query, IsOpen, run-open}
use simb.Provider.{NetworkProvider, Replies, get_closest_peers, await}
use simb.Provider.Broadcasting.{sent_with_channel, get_closest_peers_lem}
use simb.Provider.Received.{peers_of, received, received-append}

module _ {F : Failures} (net : Libp2p F) where
  -- How a query ends, `none` for a timeout: the event of it, and what the caller gets.
  abbrev pub result_of : Option (List net.PeerId) → QueryResult net
  result_of none = Messages.closest_peers_timeout
  result_of (some peers) = Messages.closest_peers peers

  abbrev pub reply_of : Option (List net.PeerId) → Result (RequestError F) (List net.PeerId)
  reply_of none = err timeout
  reply_of (some peers) = ok peers

  -- The round in which the query of an id ends.
  abbrev pub queried :
      Receivers
      → ℕ
      → net.QueryId
      → Option (List net.PeerId)
      → NetworkManager net
      → Result ⊥ Ended × NetworkManager net
  queried r next id answer =
      select net r
        (Run.event next (Messages.kad (Messages.outbound_query_progressed id (result_of answer))))

  -- The state once the reply is sent.
  abbrev pub told_peers :
      net.QueryId
      → ℕ
      → Result (RequestError F) (List net.PeerId)
      → NetworkManager net
      → NetworkManager net
  told_peers id sender reply m = record m {
    pending_get_closest_peers = without ⦃eq = net.query_id_equal⦄ id m.pending_get_closest_peers;
    outcomes = m.outcomes ++ (sender, some (peers_reply reply)) ∷ [];
  }

  first_end :
      (r : Receivers) (next : ℕ) (id : net.QueryId) (answer : Option (List net.PeerId)) (sender : ℕ)
      (m : NetworkManager net)
      → sender_of_query net id m ≡ some sender
      → r.awaits sender ≡ true
      → queried r next id answer m ≡ (ok waiting, told_peers id sender (reply_of answer) m)
  unfolding select handle_event handle_kad_event
  first_end r next id none sender m known there = rw (known, there) refl
  first_end r next id (some peers) sender m known there = rw (known, there) refl

  later_end :
      (r : Receivers) (next : ℕ) (id : net.QueryId) (answer : Option (List net.PeerId))
      (m : NetworkManager net)
      → sender_of_query net id m ≡ none
      → queried r next id answer m ≡ (ok waiting, m)
  unfolding select handle_event handle_kad_event
  later_end r next id none m absent =
      rw (absent, without-none ⦃eq = net.query_id_equal⦄ id m.pending_get_closest_peers absent) refl
  later_end r next id (some peers) m absent =
      rw (absent, without-none ⦃eq = net.query_id_equal⦄ id m.pending_get_closest_peers absent) refl

  module _ (provider : NetworkProvider net) (r : Receivers) (m : NetworkManager net) where
    -- The id that the swarm gives the query, and the state after the command.
    abbrev pub query_id : net.QueryId
    query_id = (net.get_closest_peers (net.local_peer_id m.swarm) m.swarm).0

    abbrev pub asked : NetworkManager net
    asked = (handle_command net r (Messages.get_closest_peers provider.next_channel) m).1

    sender_known : sender_of_query net query_id asked ≡ some provider.next_channel
    unfolding handle_command
    sender_known = ground (
      arith,
      get-insert ⦃eq = net.query_id_equal⦄ query_id query_id provider.next_channel
          m.pending_get_closest_peers,
      same_refl ⦃eq = net.query_id_equal⦄ query_id,
    )

    -- A call of `get_closest_peers`, where the network manager is there, sends one command, on a
    -- channel of its own, and ends with what the query finds. After the command, and any rounds in
    -- which the query does not end and the swarm gives its id to no other, the peers that it finds,
    -- or its timeout, are sent on the channel, if its receiver is there, and the query is out no
    -- more; the caller, on whose channel nothing came before, gets the peers, or the error of a
    -- timeout; and whatever comes for the query after that changes nothing.
    pub peers_come :
        (xs : List (Receivers × Ready net)) (r' r'' : Receivers) (next next' : ℕ)
        (answer answer' : Option (List net.PeerId))
        → provider.received ≡ true
        → IsOpen net query_id xs asked
        → r'.awaits provider.next_channel ≡ true
        → tally provider.next_channel (run net xs asked).1.outcomes ≡ 0
        → let asking = (run net xs asked).1 in
          let after = told_peers query_id provider.next_channel (reply_of answer) asking in
          ((answers : Replies net (List net.PeerId))
            → (get_closest_peers net answers provider).1
              ≡ sent_with_channel Messages.get_closest_peers provider)
          × (queried r' next query_id answer asking ≡ (ok waiting, after))
          × ((get_closest_peers net (received net (peers_of net) after.outcomes) provider).0
              ≡ reply_of answer)
          × (queried r'' next' query_id answer' after ≡ (ok waiting, after))
    peers_come xs r' r'' next next' answer answer' receives unended there fresh =
        let asking = (run net xs asked).1 in
        (
          λ answers.
              ap (λ call. call.1) (get_closest_peers_lem provider (λ tx. none) receives answers),
          first_end r' next query_id answer provider.next_channel asking
              (run-open net query_id xs asked unended ∙ sender_known) there,
          ap (λ call. call.0) (get_closest_peers_lem provider (λ tx. none) receives _)
              ∙ ap (await net) (
                  received-append net (peers_of net) asking.outcomes provider.next_channel
                    (some (peers_reply (reply_of answer))) fresh),
          later_end r'' next' query_id answer' _ (
              get-without ⦃eq = net.query_id_equal⦄ query_id query_id
                asking.pending_get_closest_peers
              ∙ rw (same_refl ⦃eq = net.query_id_equal⦄ query_id) refl),
        )

-- ===== src/Network/Events.antt =====
-- src/net/network.rs: what `NetworkManager` does on the events of its swarm. The number of a
-- one-shot channel that a step opens is an argument.
use simb.Prelude.{ℕ, List, [], ◌∷◌, ◌++◌, Option, none, some, Bool, Str, str_eq, if◌then◌else◌}
use simb.Prelude.Result.{Result, ok, err, expect}
use simb.Prelude.Exec.{pure, reads, ◌>>=◌}
use simb.Prelude.HashMap.{get, without}
use simb.Interface.{Header, Failures, RequestError, timeout, outbound_failure, dial_error}
use simb.External.{Bytes}
use simb.Manager.{
  ChainNetworkEvent, incoming_new_block_header, incoming_transactions, get_block_headers,
}
use simb.Network.{Receivers, Action, send_to, send_event, sender_of}
use simb.Network.Swarm.{Libp2p}
use simb.Network.Messages.{
  block_header, transactions, Reply, unit_reply, peers_reply, headers_reply, MdnsEvent, discovered,
  expired, QueryResult, closest_peers, closest_peers_timeout, other_result, KadEvent,
  outbound_query_progressed, other_kad, RequestResponseEvent, request_message, response_message,
  inbound_failure, response_sent, SwarmEvent, mdns, gossipsub_message, kad, request_response,
  connection_established, outgoing_connection_error, new_listen_addr, other_event,
}
use simb.Network.Messages

module _ {F : Failures} (net : Libp2p F) where
  unfoldable pub add_discovered : List (net.PeerId × net.Multiaddr) → net.Swarm → net.Swarm
  add_discovered [] swarm = swarm
  add_discovered ((peer_id, multiaddr) ∷ list) swarm =
      add_discovered list (net.add_address peer_id multiaddr (net.add_explicit_peer peer_id swarm))

  unfoldable pub remove_expired : List (net.PeerId × net.Multiaddr) → net.Swarm → net.Swarm
  remove_expired [] swarm = swarm
  remove_expired ((peer_id, multiaddr) ∷ list) swarm =
      remove_expired list
        (net.remove_address peer_id multiaddr (net.remove_explicit_peer peer_id swarm))

  unfoldable pub handle_mdns_event : MdnsEvent net → Action net
  unfolding add_discovered remove_expired
  handle_mdns_event (discovered list) m = (ok tt, record m { swarm = add_discovered list m.swarm })
  handle_mdns_event (expired list) m = (ok tt, record m { swarm = remove_expired list m.swarm })

  -- The sender of a query that is over gets the peers, or the error.
  abbrev pub answer_closest_peers :
      Receivers → net.QueryId → Result (RequestError F) (List net.PeerId) → Action net
  answer_closest_peers r id response m =
      send_to net r (get ⦃eq = net.query_id_equal⦄ id m.pending_get_closest_peers)
        (peers_reply response)
        (record m {
          pending_get_closest_peers =
              without ⦃eq = net.query_id_equal⦄ id m.pending_get_closest_peers;
        })

  unfoldable pub handle_kad_event : Receivers → KadEvent net → Action net
  unfolding get without
  handle_kad_event r (outbound_query_progressed id (closest_peers peers)) =
      answer_closest_peers r id (ok peers)
  handle_kad_event r (outbound_query_progressed id closest_peers_timeout) =
      answer_closest_peers r id (err timeout)
  handle_kad_event r (outbound_query_progressed id other_result) = pure tt
  handle_kad_event r other_kad = pure tt

  -- The sender of a request for headers that is over gets its result.
  abbrev pub answer_headers :
      Receivers → net.OutboundRequestId → Result (RequestError F) (List Header) → Action net
  answer_headers r request_id response m =
      send_to net r
        (sender_of net (get ⦃eq = net.request_id_equal⦄ request_id m.pending_request_headers))
        (headers_reply response)
        (record m {
          pending_request_headers =
              without ⦃eq = net.request_id_equal⦄ request_id m.pending_request_headers;
        })

  unfoldable pub handle_request_response_header_event :
      Receivers → ℕ → RequestResponseEvent net → Action net
  unfolding get without
  handle_request_response_header_event r respond (request_message request channel) = do
    done ← send_event net r (get_block_headers respond channel request)
    λ m. (ok tt, record m { incoming_peer_requests = m.incoming_peer_requests ++ respond ∷ [] })
  handle_request_response_header_event r respond (response_message request_id response) =
      answer_headers r request_id (ok response)
  handle_request_response_header_event r respond (Messages.outbound_failure request_id error) =
      answer_headers r request_id (err (outbound_failure error))
  handle_request_response_header_event r respond inbound_failure = pure tt
  handle_request_response_header_event r respond response_sent = pure tt

  -- A message of a topic: what it carries is decoded, and the chain's manager is told.
  abbrev pub deliver :
      {A : Type 0}
      → Receivers
      → Bool
      → Option A
      → (A → ChainNetworkEvent ℕ net.ResponseChannel)
      → Action net
  deliver r of_topic decoded event =
      if of_topic
      then (do content ← reads (λ m. expect decoded); send_event net r (event content))
      else pure tt

  unfoldable pub handle_gossipsub_message : Receivers → Str → Bytes → Action net
  handle_gossipsub_message r topic data_bytes = do
    done ←
        deliver r (str_eq topic (net.topic_hash block_header)) (net.decode_header data_bytes)
          incoming_new_block_header
    deliver r (str_eq topic (net.topic_hash transactions)) (net.decode_transactions data_bytes)
        incoming_transactions

  -- The sender of a dial that is over gets its result.
  abbrev pub answer_dial : Receivers → net.PeerId → Reply net → Action net
  answer_dial r peer_id reply m =
      send_to net r (get ⦃eq = net.peer_id_equal⦄ peer_id m.pending_dial) reply
        (record m { pending_dial = without ⦃eq = net.peer_id_equal⦄ peer_id m.pending_dial })

  abbrev pub answer_listening : Receivers → net.ListenerId → Action net
  answer_listening r listener_id m =
      send_to net r (get ⦃eq = net.listener_id_equal⦄ listener_id m.pending_listening)
        (unit_reply (ok tt))
        (record m {
          pending_listening = without ⦃eq = net.listener_id_equal⦄ listener_id m.pending_listening;
        })

  unfoldable pub handle_event : Receivers → ℕ → SwarmEvent net → Action net
  unfolding get without handle_mdns_event handle_gossipsub_message handle_kad_event
      handle_request_response_header_event
  handle_event r respond (mdns event) = handle_mdns_event event
  handle_event r respond (gossipsub_message topic data_bytes) =
      handle_gossipsub_message r topic data_bytes
  handle_event r respond (kad event) = handle_kad_event r event
  handle_event r respond (request_response event) =
      handle_request_response_header_event r respond event
  handle_event r respond (connection_established peer_id is_dialer) =
      if is_dialer then answer_dial r peer_id (unit_reply (ok tt)) else pure tt
  handle_event r respond (outgoing_connection_error (some peer_id) error) =
      answer_dial r peer_id (unit_reply (err (dial_error error)))
  handle_event r respond (outgoing_connection_error none error) = pure tt
  handle_event r respond (new_listen_addr listener_id) = answer_listening r listener_id
  handle_event r respond other_event = pure tt

-- ===== src/Network.antt =====
-- src/net/network.rs: `NetworkManager`, which carries out the commands of the other parts on the
-- swarm of libp2p, and hands what the swarm reports to them. What the one-shot channels and the
-- event channel received is part of its state.
pub mod Swarm
pub mod Messages
pub mod Events
pub mod Run
pub mod Behaviour
pub mod Account
pub mod Conserved
pub mod Noted
pub mod Settled
pub mod Total
pub mod Gossip
pub mod Rounds
pub mod Kept
pub mod Answered
pub mod Queried
pub mod Peers
pub mod Awaited
pub mod Served
pub mod Pooled
pub mod Mined
pub mod Panics
use simb.Prelude.{
  ℕ, zero, suc, List, [], ◌∷◌, ◌++◌, ◌⊎◌, inl, inr, Option, none, some, Bool, true, false, Str,
  str_eq, if◌then◌else◌,
}
use simb.Prelude.Result
use simb.Prelude.Result.{Result, ok, err, panic, expect}
use simb.Prelude.Exec.{Exec, pure, reads, continue, ◌>>=◌}
use simb.Prelude.HashMap.{HashMap, get, without, insert}
use simb.Interface.{
  Header, Transaction, HeadersRequest, Failures, RequestError, channel_closed, timeout,
  outbound_failure, dial_error, transport_error, publish_error, from_channel_error,
}
use simb.External.{Bytes}
use simb.Manager.{
  GetBlockHeadersResponse, ChainNetworkEvent, incoming_new_block_header, incoming_transactions,
  get_block_headers, take_future,
}
use simb.Network.Swarm.{Libp2p}
use simb.Network.Messages
use simb.Network.Messages.{
  block_header, transactions, GetHeadersRequest, NetworkProviderMessage, Reply, unit_reply,
  peers_reply, addrs_reply, headers_reply, MdnsEvent, discovered, expired, QueryResult,
  closest_peers, closest_peers_timeout, other_result, KadEvent, outbound_query_progressed,
  other_kad, RequestResponseEvent, request_message, response_message, inbound_failure,
  response_sent, SwarmEvent, mdns, gossipsub_message, kad, request_response, connection_established,
  outgoing_connection_error, new_listen_addr, other_event,
}

-- Which receivers are still there while a step runs: that of the chain's manager, and those of the
-- one-shot channels.
pub record Receivers : Type 0 where
  pub chain : Bool
  pub awaits : ℕ → Bool

module _ {F : Failures} (net : Libp2p F) where
  pub record NetworkManager : Type 0 where
    pub swarm : net.Swarm
    pub pending_request_headers : HashMap net.OutboundRequestId (GetHeadersRequest net)
    pub pending_get_closest_peers : HashMap net.QueryId ℕ
    pub pending_dial : HashMap net.PeerId ℕ
    pub pending_listening : HashMap net.ListenerId ℕ
    -- The one-shot channels on which the chain's manager answers.
    pub incoming_peer_requests : List ℕ
    -- What was sent to the chain's manager.
    pub events : List (ChainNetworkEvent ℕ net.ResponseChannel)
    -- What became of the one-shot channels: a reply, or `none` where the sender was dropped.
    pub outcomes : List (ℕ × Option (Reply net))

  unfoldable pub new : net.Swarm → NetworkManager
  new swarm = record {
    swarm = swarm;
    pending_request_headers = [];
    pending_get_closest_peers = [];
    pending_dial = [];
    pending_listening = [];
    incoming_peer_requests = [];
    events = [];
    outcomes = [];
  }

  abbrev pub Action : Type 0
  Action = Exec NetworkManager ⊥ (Unit {0})

  abbrev pub outcome : ℕ → Option (Reply net) → NetworkManager → NetworkManager
  outcome tx reply m = record m { outcomes = m.outcomes ++ (tx, reply) ∷ [] }

  -- `tx.send(reply).expect(...)`
  abbrev pub send : Receivers → ℕ → Reply net → Action
  send r tx reply m = if r.awaits tx then (ok tt, outcome tx (some reply) m) else (panic, m)

  -- The sender that an insertion replaces, if any, is dropped.
  abbrev pub drop : Option ℕ → NetworkManager → NetworkManager
  drop none m = m
  drop (some tx) m = outcome tx none m

  -- `if let Some(sender) = ...remove(...) { sender.send(reply).expect(...) }`
  abbrev pub send_to : Receivers → Option ℕ → Reply net → Action
  send_to r none reply m = (ok tt, m)
  send_to r (some tx) reply m = send r tx reply m

  -- `event_sender.send(event)`, where a failure is a panic.
  abbrev pub send_event : Receivers → ChainNetworkEvent ℕ net.ResponseChannel → Action
  send_event r event m =
      if r.chain then (ok tt, record m { events = m.events ++ event ∷ [] }) else (panic, m)

  abbrev pub sender_of : Option (GetHeadersRequest net) → Option ℕ
  sender_of none = none
  sender_of (some request) = some request.sender

  unfoldable pub handle_response_block_headers :
      RequestError F ⊎ GetBlockHeadersResponse net.ResponseChannel → Action
  handle_response_block_headers (inl e) m = (ok tt, m)
  handle_response_block_headers (inr response) m =
      (ok tt, record m { swarm = net.send_response response.channel response.headers m.swarm })

  -- The reply to a call of the swarm that has only an error to tell.
  abbrev pub unit_result : {E : Type 0} → (E → RequestError F) → E ⊎ Unit {0} → Reply net
  unit_result from_error (inl e) = unit_reply (err (from_error e))
  unit_result from_error (inr done) = unit_reply (ok tt)

  -- What `listen_on` gave.
  abbrev pub listening : Receivers → ℕ → F.TransportError ⊎ net.ListenerId → Action
  listening r tx (inl e) m = send r tx (unit_reply (err (transport_error e))) m
  listening r tx (inr listener_id) m = (
    ok tt,
    drop (get ⦃eq = net.listener_id_equal⦄ listener_id m.pending_listening) (record m {
      pending_listening = insert ⦃eq = net.listener_id_equal⦄ listener_id tx m.pending_listening;
    }),
  )

  -- What `dial` gave.
  abbrev pub dialing : Receivers → net.PeerId → net.Multiaddr → ℕ → F.DialError ⊎ Unit {0} → Action
  dialing r peer_id peer_addr tx (inl e) m = send r tx (unit_reply (err (dial_error e))) m
  dialing r peer_id peer_addr tx (inr done) m = (
    ok tt,
    record m {
      swarm = net.add_address peer_id peer_addr m.swarm;
      pending_dial = insert ⦃eq = net.peer_id_equal⦄ peer_id tx m.pending_dial;
    },
  )

  -- The entry of the peer: a dial that is pending already lets the sender of this one drop.
  abbrev pub dial_entry : Receivers → net.PeerId → net.Multiaddr → ℕ → Option ℕ → Action
  dial_entry r peer_id peer_addr tx none m =
      let dialed = net.dial (net.with_p2p peer_addr peer_id) m.swarm in
      dialing r peer_id peer_addr tx dialed.0 (record m { swarm = dialed.1 })
  dial_entry r peer_id peer_addr tx (some other) m = (ok tt, outcome tx none m)

  unfoldable pub handle_command : Receivers → NetworkProviderMessage net → Action
  unfolding get without
  handle_command r (Messages.start_listening addr tx) m =
      let listened = net.listen_on addr m.swarm in
      listening r tx listened.0 (record m { swarm = listened.1 })
  handle_command r (Messages.listen_addrs tx) m =
      send r tx (addrs_reply (ok (net.listeners m.swarm ++ net.external_addresses m.swarm))) m
  handle_command r (Messages.dial peer_id peer_addr tx) m =
      dial_entry r peer_id peer_addr tx (get ⦃eq = net.peer_id_equal⦄ peer_id m.pending_dial) m
  handle_command r (Messages.broadcast_transactions tx txs) m =
      let published = net.publish transactions (net.encode_transactions txs) m.swarm in
      send r tx (unit_result publish_error published.0) (record m { swarm = published.1 })
  handle_command r (Messages.broadcast_block_header header tx) m =
      let published = net.publish block_header (net.encode_header header) m.swarm in
      send r tx (unit_result publish_error published.0) (record m { swarm = published.1 })
  handle_command r (Messages.get_closest_peers sender) m =
      let query = net.get_closest_peers (net.local_peer_id m.swarm) m.swarm in
      (
        ok tt,
        drop (get ⦃eq = net.query_id_equal⦄ query.0 m.pending_get_closest_peers) (record m {
          swarm = query.1;
          pending_get_closest_peers =
              insert ⦃eq = net.query_id_equal⦄ query.0 sender m.pending_get_closest_peers;
        }),
      )
  handle_command r (Messages.get_headers request) m =
      let query = net.send_request request.peer request.request m.swarm in
      (
        ok tt,
        drop (sender_of (get ⦃eq = net.request_id_equal⦄ query.0 m.pending_request_headers))
            (record m {
              swarm = query.1;
              pending_request_headers =
                  insert ⦃eq = net.request_id_equal⦄ query.0 request m.pending_request_headers;
            }),
      )

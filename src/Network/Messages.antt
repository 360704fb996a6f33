-- ===== src/Network/Messages.antt =====
-- src/net/mod.rs and src/net/network.rs: the commands to the network manager, what their senders
-- get back, and the events of the swarm that it handles. A one-shot channel is named by a number.
use simb.Prelude.{ℕ, List, Option, Bool, Str, text}
use simb.Prelude.Result.{Result}
use simb.Interface.{Header, Transaction, HeadersRequest, Failures, RequestError}
use simb.External.{Bytes}
use simb.Network.Swarm.{Libp2p}

-- The names of the two topics.
abbrev pub block_header : Str
block_header = text "/lightlayer/block_header"

abbrev pub transactions : Str
transactions = text "/lightlayer/transactions"

module _ {F : Failures} (net : Libp2p F) where
  pub record GetHeadersRequest : Type 0 where
    pub peer : net.PeerId
    pub request : HeadersRequest
    pub sender : ℕ

  pub data NetworkProviderMessage : Type 0 where
    get_closest_peers : ℕ → NetworkProviderMessage
    broadcast_block_header : Header → ℕ → NetworkProviderMessage
    broadcast_transactions : ℕ → List Transaction → NetworkProviderMessage
    get_headers : GetHeadersRequest → NetworkProviderMessage
    dial : net.PeerId → net.Multiaddr → ℕ → NetworkProviderMessage
    listen_addrs : ℕ → NetworkProviderMessage
    start_listening : net.Multiaddr → ℕ → NetworkProviderMessage

  -- What is sent on a one-shot channel.
  pub data Reply : Type 0 where
    unit_reply : Result (RequestError F) (Unit {0}) → Reply
    peers_reply : Result (RequestError F) (List net.PeerId) → Reply
    addrs_reply : Result (RequestError F) (List net.Multiaddr) → Reply
    headers_reply : Result (RequestError F) (List Header) → Reply

  -- libp2p: the events that the program handles, and one for each group that it passes over.
  pub data MdnsEvent : Type 0 where
    discovered expired : List (net.PeerId × net.Multiaddr) → MdnsEvent

  pub data QueryResult : Type 0 where
    closest_peers : List net.PeerId → QueryResult
    closest_peers_timeout other_result : QueryResult

  pub data KadEvent : Type 0 where
    outbound_query_progressed : net.QueryId → QueryResult → KadEvent
    other_kad : KadEvent

  pub data RequestResponseEvent : Type 0 where
    request_message : HeadersRequest → net.ResponseChannel → RequestResponseEvent
    response_message : net.OutboundRequestId → List Header → RequestResponseEvent
    outbound_failure : net.OutboundRequestId → F.OutboundFailure → RequestResponseEvent
    inbound_failure response_sent : RequestResponseEvent

  pub data SwarmEvent : Type 0 where
    mdns : MdnsEvent → SwarmEvent
    -- The hash of the topic, and the data.
    gossipsub_message : Str → Bytes → SwarmEvent
    kad : KadEvent → SwarmEvent
    request_response : RequestResponseEvent → SwarmEvent
    -- The flag is `endpoint.is_dialer()`.
    connection_established : net.PeerId → Bool → SwarmEvent
    outgoing_connection_error : Option net.PeerId → F.DialError → SwarmEvent
    new_listen_addr : net.ListenerId → SwarmEvent
    other_event : SwarmEvent

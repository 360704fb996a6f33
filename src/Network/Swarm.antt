-- ===== src/Network/Swarm.antt =====
-- What src/net/network.rs and src/net/provider.rs call and do not contain: the swarm of libp2p with
-- its behaviours, the codec of what is gossiped (alloy_rlp), and the texts of tokio's errors.
use simb.Prelude.{◌≡◌, ◌⊎◌, List, Option, some, Str}
use simb.Prelude.HashMap.{Equal}
use simb.Interface.{Header, Transaction, HeadersRequest, Failures}
use simb.External.{Bytes}

pub record Libp2p (F : Failures) : Type 1 where
  pub Swarm : Type 0
  pub PeerId : Type 0
  pub Multiaddr : Type 0
  pub ListenerId : Type 0
  pub QueryId : Type 0
  pub OutboundRequestId : Type 0
  pub ResponseChannel : Type 0
  pub peer_id_equal : Equal PeerId
  pub listener_id_equal : Equal ListenerId
  pub query_id_equal : Equal QueryId
  pub request_id_equal : Equal OutboundRequestId
  -- The swarm. A call that may fail gives the error or the value, and the swarm after it.
  pub listen_on : Multiaddr → Swarm → (F.TransportError ⊎ ListenerId) × Swarm
  pub listeners : Swarm → List Multiaddr
  pub external_addresses : Swarm → List Multiaddr
  -- `Multiaddr::with(Protocol::P2p(_))`
  pub with_p2p : Multiaddr → PeerId → Multiaddr
  pub dial : Multiaddr → Swarm → (F.DialError ⊎ Unit {0}) × Swarm
  pub local_peer_id : Swarm → PeerId
  -- Its behaviours: gossipsub, kad and request_response.
  pub topic_hash : Str → Str
  pub publish : Str → Bytes → Swarm → (F.PublishError ⊎ Unit {0}) × Swarm
  pub add_explicit_peer : PeerId → Swarm → Swarm
  pub remove_explicit_peer : PeerId → Swarm → Swarm
  pub add_address : PeerId → Multiaddr → Swarm → Swarm
  pub remove_address : PeerId → Multiaddr → Swarm → Swarm
  pub get_closest_peers : PeerId → Swarm → QueryId × Swarm
  pub bootstrap : Swarm → Swarm
  pub send_request : PeerId → HeadersRequest → Swarm → OutboundRequestId × Swarm
  pub send_response : ResponseChannel → List Header → Swarm → Swarm
  -- alloy_rlp
  pub encode_header : Header → Bytes
  pub decode_header : Bytes → Option Header
  pub encode_transactions : List Transaction → Bytes
  pub decode_transactions : Bytes → Option (List Transaction)
  -- tokio: the texts of `SendError` and `RecvError`.
  pub send_error : Str
  pub recv_error : Str

-- What the documentation of alloy_rlp and of libp2p promises: what was encoded can be decoded, and
-- two topics have two hashes.
pub record Codec {F : Failures} (net : Libp2p F) : Type 0 where
  pub decode-encode_header : (h : Header) → net.decode_header (net.encode_header h) ≡ some h
  pub topic_hash_injective : (a b : Str) → net.topic_hash a ≡ net.topic_hash b → a ≡ b

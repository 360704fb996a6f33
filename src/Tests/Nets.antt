-- ===== src/Tests/Nets.antt =====
-- A swarm in memory for the theorems on the network: it counts what it hands out, and keeps what
-- was published.
use simb.Prelude.{
  ℕ, ◌+◌, ◌≡◌, ◌↔◌, refl, inl, inr, List, [], ◌∷◌, ◌++◌, none, true, ◌==◌, arith, Str, text,
  if◌then◌else◌,
}
use simb.Prelude.HashMap.{Equal}
use simb.External.{Bytes}
use simb.Network.{Receivers}
use simb.Network.Swarm.{Libp2p, Codec}
use simb.Network.Gossip.{Delivery}
use simb.Tests.Memory.{encode, decode, decode-encode}
use simb.Tests.ChainTheorems.{failures}

pub record Counter : Type 0 where
  pub next : ℕ
  pub published : List (Str × Bytes)

pub number_same : (a b : ℕ) → ((a == b) ≡ true) ↔ (a ≡ b)
number_same a b = ground arith

abbrev pub number_equal : Equal ℕ
number_equal = record { same = λ a b. a == b; same_iff = number_same }

abbrev pub count : Counter → Counter
count s = record s { next = s.next + 1 }

-- The swarm refuses to dial the address 13.
abbrev pub swarm_net : Libp2p failures
swarm_net = record {
  Swarm = Counter;
  PeerId = ℕ;
  Multiaddr = ℕ;
  ListenerId = ℕ;
  QueryId = ℕ;
  OutboundRequestId = ℕ;
  ResponseChannel = ℕ;
  peer_id_equal = number_equal;
  listener_id_equal = number_equal;
  query_id_equal = number_equal;
  request_id_equal = number_equal;
  listen_on = λ addr s. (inr s.next, count s);
  listeners = λ s. [];
  external_addresses = λ s. [];
  with_p2p = λ addr peer. addr;
  dial = λ addr s. (if addr == 13 then inl tt else inr tt, s);
  local_peer_id = λ s. 0;
  topic_hash = λ s. s;
  publish = λ topic bs s. (inr tt, record s { published = s.published ++ (topic, bs) ∷ [] });
  add_explicit_peer = λ peer s. s;
  remove_explicit_peer = λ peer s. s;
  add_address = λ peer addr s. s;
  remove_address = λ peer addr s. s;
  get_closest_peers = λ peer s. (s.next, count s);
  bootstrap = λ s. s;
  send_request = λ peer request s. (s.next, count s);
  send_response = λ channel headers s. s;
  encode_header = encode;
  decode_header = decode;
  encode_transactions = λ ts. [];
  decode_transactions = λ bs. none;
  send_error = text "channel closed";
  recv_error = text "channel closed";
}

abbrev pub swarm_codec : Codec swarm_net
swarm_codec = record { decode-encode_header = decode-encode; topic_hash_injective = λ a b e. e }

abbrev pub swarm_delivery : Delivery swarm_net
swarm_delivery = record { sent = λ s. s.published; sent-publish = λ topic bs s e. refl }

abbrev pub swarm : Counter
swarm = record { next = 0; published = [] }

-- All receivers are there.
abbrev pub all_there : Receivers
all_there = record { chain = true; awaits = λ k. true }

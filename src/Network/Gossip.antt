-- ===== src/Network/Gossip.antt =====
-- src/net/network.rs: a header on its way from one node to the chain of another.
use simb.Prelude.{
  ℕ, ◌+◌, ◌<◌, ◌≡◌, ◌≢◌, refl, sym, ◌∙◌, List, [], ◌∷◌, ◌++◌, inl, inr, Bool, true, false, arith,
  Bool-cases, Str, str_eq, str_eq_refl, str_eq_iff,
}
use simb.Prelude.Result.{ok}
use simb.Interface.{Failures, Header}
use simb.External.{Bytes, u64_mod}
use simb.BlockTree.Types.{BlockTree}
use simb.BlockTree.View.{View, put}
use simb.BlockTree.Contract.{Contract}
use simb.Manager
use simb.Manager.{
  ChainNetworkEvent, incoming_new_block_header, incoming_transactions, Manager, push_broadcast,
  on_event,
}
use simb.Manager.Announced.{next_header_lem}
use simb.Network.{Receivers, NetworkManager, handle_command}
use simb.Network.Swarm.{Libp2p, Codec}
use simb.Network.Messages
use simb.Network.Messages.{block_header, transactions}
use simb.Network.Events.{handle_event, handle_gossipsub_message}

-- What the documentation of libp2p promises of `publish`: what is published goes to the peers,
-- under the hash of its topic.
pub record Delivery {F : Failures} (net : Libp2p F) : Type 0 where
  pub sent : net.Swarm → List (Str × Bytes)
  pub sent-publish :
      (topic : Str) (data_bytes : Bytes) (s : net.Swarm)
      → (net.publish topic data_bytes s).0 ≡ inr tt
      → sent (net.publish topic data_bytes s).1 ≡ sent s ++ (net.topic_hash topic, data_bytes) ∷ []

false_ne_true : false ≢ true
false_ne_true e = cc

topics_differ : str_eq block_header transactions ≡ false
unfolding str_eq
topics_differ = refl

module _ {F : Failures} {net : Libp2p F} (codec : Codec net) (rb : Receivers) (next : ℕ) where
  pub hashes_differ : str_eq (net.topic_hash block_header) (net.topic_hash transactions) ≡ false
  hashes_differ =
      elim (Bool-cases (str_eq (net.topic_hash block_header) (net.topic_hash transactions))) [
        | inl e ↦
            let same = codec.topic_hash_injective _ _ ((str_eq_iff _ _).0 e) in
            absurd (false_ne_true (sym topics_differ ∙ (str_eq_iff _ _).1 same))
        | inr e ↦ e
      ]

  header_arrives :
      (h : Header) (b : NetworkManager net)
      → rb.chain ≡ true
      → handle_event net rb next
          (Messages.gossipsub_message (net.topic_hash block_header) (net.encode_header h))
          b
        ≡ (ok tt, record b { events = b.events ++ incoming_new_block_header h ∷ [] })
  unfolding handle_event handle_gossipsub_message
  header_arrives h b there =
      rw (str_eq_refl (net.topic_hash block_header), handle_gossipsub_message)
        (rw (codec.decode-encode_header h, there, hashes_differ, handle_gossipsub_message) refl)

module _ {F : Failures} {net : Libp2p F} (codec : Codec net) (delivery : Delivery net) where
  broadcast-sent :
      (r : Receivers) (h : Header) (tx : ℕ) (a : NetworkManager net)
      → (net.publish block_header (net.encode_header h) a.swarm).0 ≡ inr tt
      → delivery.sent (handle_command net r (Messages.broadcast_block_header h tx) a).1.swarm
        ≡ delivery.sent a.swarm ++ (net.topic_hash block_header, net.encode_header h) ∷ []
  unfolding handle_command
  broadcast-sent r h tx a published =
      ground (arith, delivery.sent-publish block_header (net.encode_header h) a.swarm published)

  module _ {tree : BlockTree} {checks : Bool} (contract : Contract tree checks) {H P : Type 0} where
    -- A header that a node is told to broadcast leaves it, if the swarm can publish it, in one
    -- message; and any node that this message comes to, whose chain the header extends by one
    -- block, and whose chain's manager is there, tells that manager of it once, which puts it on
    -- the chain, broadcasts it in turn, and changes nothing else.
    pub header_travels :
        (ra rb : Receivers) (h : Header) (tx next : ℕ) (a b : NetworkManager net) (v : View)
        (m : Manager tree H P ℕ net.ResponseChannel)
        → (net.publish block_header (net.encode_header h) a.swarm).0 ≡ inr tt
        → rb.chain ≡ true
        → contract.Shows m.chain v
        → h.number ≡ v.tip + 1
        → (v.block v.tip).hash ≡ h.parent_hash
        → h.number + 1 < u64_mod
        → (message : Str × Bytes) × (event : ChainNetworkEvent ℕ net.ResponseChannel)
          × (chain : tree.Self) × (delivery.sent
                (handle_command net ra (Messages.broadcast_block_header h tx) a).1.swarm
              ≡ delivery.sent a.swarm ++ message ∷ [])
          × (handle_event net rb next (Messages.gossipsub_message message.0 message.1) b
              ≡ (ok tt, record b { events = b.events ++ event ∷ [] }))
          × contract.Shows chain (put v h)
          × (on_event checks event m ≡ (
            ok tt,
            push_broadcast (Manager.broadcast_block_header h) (record m { chain = chain }),
          ))
    header_travels ra rb h tx next a b v m published there shown number parent fits =
        let (chain, shows, added) = next_header_lem contract v h m shown number parent fits in
        (
          (net.topic_hash block_header, net.encode_header h),
          incoming_new_block_header h,
          chain,
          broadcast-sent ra h tx a published,
          header_arrives codec rb next h b there,
          shows,
          added,
        )

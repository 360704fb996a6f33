-- ===== src/Network/Pooled.antt =====
-- src/pool.rs, src/net/network.rs and src/net/chain.rs: transactions from the pool of one node to
-- that of another.
use simb.Prelude.{
  ℕ, ◌≡◌, refl, sym, ◌∙◌, ap, inl, inr, List, [], ◌∷◌, ◌++◌, Option, none, some, Option-cases, Bool,
  Bool-cases, true, false, arith, Str, str_eq, str_eq_refl, str_eq_iff,
}
use simb.Prelude.Result.{ok, and_then}
use simb.Prelude.BTreeMap
use simb.Prelude.Order.{str_ord}
use simb.Interface.{Transaction, Failures}
use simb.Provider.{NetworkProvider, Replies, broadcast_provider, await_expected}
use simb.Provider.Broadcasting.{sent_with_channel, broadcast_transactions_lem}
use simb.External.{Bytes}
use simb.BlockTree.Types.{BlockTree}
use simb.Pool.{Pool, add_transactions, add_transactions_and_broadcast}
use simb.Pool.Adding.{
  last_with, has, or_else, unknown, add_transactions_lem, add_transactions_and_broadcast_lem,
}
use simb.Manager
use simb.Manager.{Manager, ChainNetworkEvent, incoming_transactions, push_broadcast, on_event}
use simb.Network.{Receivers, NetworkManager, handle_command}
use simb.Network.Swarm.{Libp2p, Codec}
use simb.Network.Messages
use simb.Network.Messages.{block_header, transactions}
use simb.Network.Events.{handle_event, handle_gossipsub_message}
use simb.Network.Gossip.{Delivery, hashes_differ}

last_with-unknown :
    (h : Str) (pool : Pool) (txs : List Transaction)
    → BTreeMap.get h pool ≡ none
    → last_with h (unknown pool txs) ≡ last_with h txs
last_with-unknown h pool [] new = refl
last_with-unknown h pool (tx ∷ txs) new =
    ground (arith, last_with-unknown h pool txs new, str_eq_iff tx.hash h)

last_with-has :
    (h : Str) (txs : List Transaction)
    → has h txs ≡ true
    → (tx : Transaction) × (last_with h txs ≡ some tx)
last_with-has h [] here = absurd (let no : ¬ (false ≡ true) = λ c. cc in no here)
last_with-has h (tx ∷ txs) here = elim (Option-cases (last_with h txs)) [
  | inr (later, e) ↦ (later, rw e refl)
  | inl e ↦ elim (Bool-cases (str_eq tx.hash h)) [
    | inl same ↦ (tx, rw (e, same) refl)
    | inr other ↦
        let (later, e') = last_with-has h txs (ground arith) in
        absurd
          (let no : ¬ (◌≡◌ {A = Option Transaction} none (some later)) = λ c. cc in no (sym e ∙ e'))
  ]
]

-- A hash of a batch leads to the same in two pools, if one of them got the batch, did not hold the
-- hash, and the other got what was new to it.
held_alike :
    (h : Str) (pool other : Pool) (txs : List Transaction)
    → BTreeMap.get h pool ≡ none
    → has h txs ≡ true
    → or_else (last_with h (unknown pool txs)) (BTreeMap.get h other)
      ≡ or_else (last_with h txs) (BTreeMap.get h pool)
held_alike h pool other txs new here =
    let (tx, e) = last_with-has h txs here in rw (last_with-unknown h pool txs new) (rw e refl)

module _ {F : Failures} {net : Libp2p F} (codec : Codec net) (delivery : Delivery net) where
  transactions-sent :
      (r : Receivers) (ts : List Transaction) (tx : ℕ) (a : NetworkManager net)
      → (net.publish transactions (net.encode_transactions ts) a.swarm).0 ≡ inr tt
      → delivery.sent (handle_command net r (Messages.broadcast_transactions tx ts) a).1.swarm
        ≡ delivery.sent a.swarm ++ (net.topic_hash transactions, net.encode_transactions ts) ∷ []
  unfolding handle_command
  transactions-sent r ts tx a published =
      ground
        (arith, delivery.sent-publish transactions (net.encode_transactions ts) a.swarm published)

  other_topic : str_eq (net.topic_hash transactions) (net.topic_hash block_header) ≡ false
  other_topic = ground (
    arith,
    hashes_differ codec,
    str_eq_iff (net.topic_hash transactions) (net.topic_hash block_header),
    str_eq_iff (net.topic_hash block_header) (net.topic_hash transactions),
  )

  transactions_arrive :
      (rb : Receivers) (next : ℕ) (ts : List Transaction) (b : NetworkManager net)
      → rb.chain ≡ true
      → net.decode_transactions (net.encode_transactions ts) ≡ some ts
      → handle_event net rb next
          (Messages.gossipsub_message (net.topic_hash transactions) (net.encode_transactions ts))
          b
        ≡ (ok tt, record b { events = b.events ++ incoming_transactions ts ∷ [] })
  unfolding handle_event handle_gossipsub_message
  transactions_arrive rb next ts b there decoded =
      rw (str_eq_refl (net.topic_hash transactions), handle_gossipsub_message)
        (rw (other_topic, decoded, there, handle_gossipsub_message) refl)

  module _ (checks : Bool) {tree : BlockTree} {H P : Type 0} where
    -- What a node adds to its pool and broadcasts comes to the pools of the nodes that its message
    -- comes to. Its provider, whose receiver is there, sends one command, on a channel of its own,
    -- to broadcast those of the batch that are new to the pool, and what comes back on that channel
    -- is the end of the call; told to broadcast them, the node sends, if its swarm can publish
    -- them, one message; a node that this message comes to, whose chain's manager is there, and
    -- where it is decoded as it was encoded, tells that manager once, which adds them to its pool
    -- and broadcasts them in turn. Then both pools hold the same under each hash of the batch that
    -- was new to the first.
    pub transactions_travel :
        (ra rb : Receivers) (txs : List Transaction) (pool : Pool) (provider : NetworkProvider net)
        (replies : Replies net (Unit {0})) (next : ℕ) (a b : NetworkManager net)
        (m : Manager tree H P ℕ net.ResponseChannel) (h : Str)
        → provider.received ≡ true
        → (net.publish transactions (net.encode_transactions (unknown pool txs)) a.swarm).0 ≡ inr tt
        → net.decode_transactions (net.encode_transactions (unknown pool txs))
          ≡ some (unknown pool txs)
        → rb.chain ≡ true
        → BTreeMap.get h pool ≡ none
        → has h txs ≡ true
        → let sent = unknown pool txs in
          let tx = provider.next_channel in
          let added =
            add_transactions_and_broadcast (broadcast_provider net replies) txs (pool, provider) in
          let pool_b = (add_transactions sent m.pool).1 in
          (message : Str × Bytes) × (event : ChainNetworkEvent ℕ net.ResponseChannel) × (added ≡ (
            and_then (await_expected net (replies tx)) (λ _. ok (add_transactions txs pool).0),
            (
              (add_transactions txs pool).1,
              sent_with_channel (λ tx. Messages.broadcast_transactions tx sent) provider,
            ),
          ))
          × (delivery.sent
                (handle_command net ra (Messages.broadcast_transactions tx sent) a).1.swarm
              ≡ delivery.sent a.swarm ++ message ∷ [])
          × (handle_event net rb next (Messages.gossipsub_message message.0 message.1) b
              ≡ (ok tt, record b { events = b.events ++ event ∷ [] }))
          × (on_event checks event m ≡ (
            ok tt,
            push_broadcast (Manager.broadcast_transactions sent) (record m { pool = pool_b }),
          ))
          × (BTreeMap.get h pool_b ≡ BTreeMap.get h added.1.0)
    unfolding on_event
    transactions_travel ra rb txs pool provider replies next a b m h received published decoded
          there new here =
        let sent = unknown pool txs in
        let broadcast = broadcast_transactions_lem provider replies received sent in
        let added =
          add_transactions_and_broadcast_lem (broadcast_provider net replies) txs pool provider
          ∙ ap
              (λ call. (
                and_then call.0 (λ _. ok (add_transactions txs pool).0),
                ((add_transactions txs pool).1, call.1),
              ))
              broadcast in
        (
          (net.topic_hash transactions, net.encode_transactions sent),
          incoming_transactions sent,
          added,
          transactions-sent ra sent provider.next_channel a published,
          transactions_arrive rb next sent b there decoded,
          refl,
          (add_transactions_lem sent m.pool h).0
              ∙ held_alike h pool m.pool txs new here
              ∙ sym ((add_transactions_lem txs pool h).0)
              ∙ sym (ap (λ r. BTreeMap.get h r.1.0) added),
        )

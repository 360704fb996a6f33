-- ===== src/Tests/Pooled.antt =====
-- The way of a transaction between two nodes, on a swarm in memory that can carry it.
use simb.Prelude.{ℕ, ◌≡◌, refl, [], ◌∷◌, ◌++◌, some, true, Str, text, str_eq}
use simb.Prelude.Result.{ok, err}
use simb.Prelude.BTreeMap
use simb.Prelude.Order.{str_ord, str_cmp}
use simb.Interface.{timeout}
use simb.External.{Bytes}
use simb.Pool.{add_transactions, add_transactions_and_broadcast}
use simb.Pool.Adding.{unknown}
use simb.Manager
use simb.Manager.{ChainNetworkEvent, push_broadcast, on_event}
use simb.Network.{NetworkManager, new, handle_command}
use simb.Network.Messages
use simb.Network.Swarm.{Libp2p, Codec}
use simb.Network.Events.{handle_event}
use simb.Network.Gossip.{Delivery}
use simb.Network.Pooled.{transactions_travel}
use simb.Provider
use simb.Provider.{Replies, broadcast_provider}
use simb.Provider.Broadcasting.{sent_with_channel}
use simb.Tests.Memory.{decode-encode}
use simb.Tests.ChainTheorems.{failures}
use simb.Tests.Managers.{idle}
use simb.Tests.Nets.{swarm_net, swarm, all_there}
use simb.Tests.Pools.{a, b, pool}

-- All texts are read as the one transaction that is new.
abbrev pool_net : Libp2p failures
pool_net = record swarm_net { decode_transactions = λ bs. some (b ∷ []) }

abbrev pool_codec : Codec pool_net
pool_codec = record { decode-encode_header = decode-encode; topic_hash_injective = λ s t e. e }

abbrev pool_delivery : Delivery pool_net
pool_delivery = record { sent = λ s. s.published; sent-publish = λ topic bs s e. refl }

abbrev quiet : NetworkManager pool_net
quiet = new pool_net swarm

-- What comes back on the channel is an error.
abbrev late : Replies pool_net (Unit {0})
late tx = some (err timeout)

transactions_travel_example :
    let sent = unknown pool (a ∷ b ∷ []) in
    let provider = Provider.new pool_net in
    let added =
      add_transactions_and_broadcast
        (broadcast_provider pool_net late)
        (a ∷ b ∷ [])
        (pool, provider) in
    let pool_b = (add_transactions sent []).1 in
    (message : Str × Bytes) × (event : ChainNetworkEvent ℕ ℕ) × (added ≡ (
      err timeout,
      (
        (add_transactions (a ∷ b ∷ []) pool).1,
        sent_with_channel (λ tx. Messages.broadcast_transactions tx sent) provider,
      ),
    ))
    × ((handle_command pool_net all_there
          (Messages.broadcast_transactions 0 sent)
          quiet).1.swarm.published
        ≡ [] ++ message ∷ [])
    × (handle_event pool_net all_there 90 (Messages.gossipsub_message message.0 message.1) quiet
        ≡ (ok tt, record quiet { events = [] ++ event ∷ [] }))
    × (on_event true event idle ≡ (
      ok tt,
      push_broadcast (Manager.broadcast_transactions sent) (record idle { pool = pool_b }),
    ))
    × (BTreeMap.get (text "b") pool_b ≡ BTreeMap.get (text "b") added.1.0)
unfolding new Provider.new BTreeMap.get str_cmp str_eq
transactions_travel_example =
    transactions_travel pool_codec pool_delivery true all_there all_there (a ∷ b ∷ []) pool
      (Provider.new pool_net) late 90 quiet quiet idle (text "b") refl refl refl refl refl refl

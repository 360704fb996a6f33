-- ===== src/Network/Mined.antt =====
-- src/blocktree.rs, src/net/provider.rs, src/net/network.rs and src/net/chain.rs: a block from the
-- node that mines it to the chain of another.
use simb.Prelude.{ℕ, ◌+◌, ◌<◌, ◌≡◌, sym, ap, ◌∙◌, [], ◌∷◌, ◌++◌, inr, Bool, true, arith, Str}
use simb.Prelude.Result.{ok, and_then}
use simb.Interface.{Failures}
use simb.External.{System, Laws, Bytes, u64_mod}
use simb.BlockTree.Types.{BlockTree, mined}
use simb.BlockTree.View.{View, put}
use simb.BlockTree.Contract.{Contract}
use simb.BlockTree.Chain.{chain, mine_and_broadcast_block}
use simb.BlockTree.Mining.{mined_header}
use simb.BlockTree.Mined.{mine_block_lem, mine_and_broadcast_lem}
use simb.BlockTree.Shown.{Shows}
use simb.BlockTree.Refinement.{chain_contract}
use simb.Manager
use simb.Manager.{ChainNetworkEvent, Manager, push_broadcast, on_event}
use simb.Network.{Receivers, NetworkManager, handle_command}
use simb.Network.Swarm.{Libp2p, Codec}
use simb.Network.Messages
use simb.Network.Messages.{block_header}
use simb.Network.Events.{handle_event}
use simb.Network.Gossip.{Delivery, header_travels}
use simb.Provider.{NetworkProvider, Replies, broadcast_provider, await_expected}
use simb.Provider.Broadcasting.{sent_with_channel, broadcast_header_lem}

module _ {sys : System} (laws : Laws sys) {F : Failures} {net : Libp2p F} (codec : Codec net)
    (delivery : Delivery net) {tree : BlockTree} {checks : Bool} (contract : Contract tree checks)
    {H P : Type 0} where
  -- A node that mines over a database that shows a view stores the block, and its provider, whose
  -- receiver is there, sends one command, on a channel of its own, to broadcast the header; what
  -- comes back on that channel is the end of the call. Told to broadcast it, the node sends, if its
  -- swarm can publish it, one message. A node that this message comes to, whose chain shows a view
  -- with the same tip, and whose chain's manager is there, tells that manager once, which puts the
  -- block on its chain and broadcasts the header in turn. The tip must be three or more below the
  -- number of u64 values.
  pub block_travels :
      (db : sys.Db) (v w : View) (now : ℕ) (random_bytes : Bytes) (random : ℕ)
      (provider : NetworkProvider net) (replies : Replies net (Unit {0})) (ra rb : Receivers)
      (next : ℕ) (a b : NetworkManager net) (m : Manager tree H P ℕ net.ResponseChannel)
      → let h = mined_header sys (chain sys) (v.block v.tip) (v.tip + 1) now random_bytes random in
        let tx = provider.next_channel in
        let (result, (db', provider')) =
          mine_and_broadcast_block sys
            (broadcast_provider net replies)
            now
            random_bytes
            random
            (db, provider) in
        Shows laws db v
        → v.tip + 2 < u64_mod
        → provider.received ≡ true
        → (net.publish block_header (net.encode_header h) a.swarm).0 ≡ inr tt
        → rb.chain ≡ true
        → contract.Shows m.chain w
        → w.tip ≡ v.tip
        → w.block w.tip ≡ v.block v.tip
        → (message : Str × Bytes) × (event : ChainNetworkEvent ℕ net.ResponseChannel)
          × (chain_b : tree.Self) × (result
              ≡ and_then (await_expected net (replies tx)) (λ _. ok (mined h)))
          × Shows laws db' (put v h)
          × (provider' ≡ sent_with_channel (λ tx. Messages.broadcast_block_header h tx) provider)
          × (delivery.sent (handle_command net ra (Messages.broadcast_block_header h tx) a).1.swarm
              ≡ delivery.sent a.swarm ++ message ∷ [])
          × (handle_event net rb next (Messages.gossipsub_message message.0 message.1) b
              ≡ (ok tt, record b { events = b.events ++ event ∷ [] }))
          × contract.Shows chain_b (put w h)
          × (on_event checks event m ≡ (
            ok tt,
            push_broadcast (Manager.broadcast_block_header h) (record m { chain = chain_b }),
          ))
  block_travels db v w now random_bytes random provider replies ra rb next a b m shown fits received
        published there shown_b tips blocks =
      let h = mined_header sys (chain sys) (v.block v.tip) (v.tip + 1) now random_bytes random in
      let (_, number, parent, _) =
        mine_block_lem sys (chain sys) (chain_contract laws) db v now random_bytes random
          {E = Unit {0}} shown fits in
      let (result, state, stored) =
        mine_and_broadcast_lem laws (broadcast_provider net replies) db provider v now random_bytes
          random shown fits in
      let call = broadcast_header_lem provider replies received h in
      let (message, event, chain_b, sent, arrives, shows, added) =
        header_travels codec delivery contract ra rb h provider.next_channel next a b w m published
          there shown_b (omega (arith, number, tips)) (ap (λ t. t.hash) blocks ∙ sym parent)
          (omega (arith, number)) in
      (
        message,
        event,
        chain_b,
        result ∙ ap (λ c. and_then c.0 (λ _. ok (mined h))) call,
        stored,
        state ∙ ap (λ c. c.1) call,
        sent,
        arrives,
        shows,
        added,
      )

-- ===== src/Client.antt =====
-- src/client.rs: the settings of a node, and its start. The clones of the chain, of the pool and of
-- the sending end of a channel share one state, which the model holds once: the chain and the pool
-- in the chain's manager, the channel of commands in the provider.
pub mod Commands
pub mod Starting
use simb.Prelude.{ℕ, List, [], ◌∷◌, Option, none, some, Bool, true, false, Str, text}
use simb.Prelude.Result
use simb.Prelude.Result.{Result, ok, err, panic, and_then, expect}
use simb.Prelude.Exec.{Exec, pure, reads, unwrap, continue, ◌>>=◌}
use simb.Interface.{Failures}
use simb.External.{System}
use simb.BlockTree.Miner.{FixedBlockTimeMiner}
use simb.BlockTree.Chain
use simb.BlockTree.Chain.{chain}
use simb.Pool
use simb.Manager
use simb.Manager.{Manager}
use simb.Rpc
use simb.Rpc.{RpcServer}
use simb.Network
use simb.Network.{NetworkManager}
use simb.Network.Swarm.{Libp2p}
use simb.Network.Behaviour
use simb.Network.Behaviour.{Behaviours, AppBehaviour}
use simb.Network.Messages.{block_header, transactions}
use simb.Provider
use simb.Provider.{NetworkProvider, Replies, start_listening, dial}

-- What src/client.rs calls and does not contain: the keys, the addresses and the builder of the
-- swarm (libp2p), and the opening of a database file (redb). `none` stands for an error.
pub record Setup {F : Failures} (net : Libp2p F) (sys : System) : Type 1 where
  pub behaviours : Behaviours
  pub create : Str → Option sys.Db
  -- The swarm of a key pair, with the behaviours of the node.
  pub build_swarm : behaviours.Keypair → AppBehaviour behaviours → Option net.Swarm
  pub subscribe : Str → net.Swarm → Option net.Swarm
  pub parse : Str → Option net.Multiaddr
  -- The peer id, where the last protocol of an address is `P2p`.
  pub last_peer_id : net.Multiaddr → Option net.PeerId

module _ {F : Failures} {net : Libp2p F} {sys : System} (setup : Setup net sys) where
  pub record ClientBuilder : Type 0 where
    pub db_path : Str
    pub auto_mine_interval : Option ℕ
    pub keypair : setup.behaviours.Keypair
    pub listening_addrs : List net.Multiaddr
    pub enabled_mdns : Bool

  -- The generated key pair is an argument.
  unfoldable pub default : setup.behaviours.Keypair → ClientBuilder
  default keypair = record {
    db_path = text "./db";
    auto_mine_interval = none;
    keypair = keypair;
    listening_addrs = [];
    enabled_mdns = false;
  }

  abbrev pub with_db_path : Str → ClientBuilder → ClientBuilder
  with_db_path path b = record b { db_path = path }

  abbrev pub with_auto_mine_interval : Option ℕ → ClientBuilder → ClientBuilder
  with_auto_mine_interval interval b = record b { auto_mine_interval = interval }

  abbrev pub with_listening_addrs : List net.Multiaddr → ClientBuilder → ClientBuilder
  with_listening_addrs addrs b = record b { listening_addrs = addrs }

  abbrev pub with_keypair : setup.behaviours.Keypair → ClientBuilder → ClientBuilder
  with_keypair keypair b = record b { keypair = keypair }

  abbrev pub with_mdns : Bool → ClientBuilder → ClientBuilder
  with_mdns enabled b = record b { enabled_mdns = enabled }

  -- The parts that have been started. The chain's manager names its provider by no value of its
  -- own: its commands go where those of `provider` go.
  pub record Started : Type 0 where
    pub network : NetworkManager net
    pub chain_manager : Manager (chain sys) Unit net.PeerId ℕ net.ResponseChannel
    pub provider : NetworkProvider net
    -- The miner that is spawned, if there is one; its chain is a clone of that of the manager.
    pub miner : Option (FixedBlockTimeMiner (chain sys))

  unfoldable pub start_network : ClientBuilder → Result ⊥ Started
  start_network b = and_then (Behaviour.new setup.behaviours b.keypair b.enabled_mdns) λ behaviour.
      and_then (expect (setup.build_swarm b.keypair behaviour)) λ swarm.
        and_then (expect (setup.subscribe block_header swarm)) λ on_headers.
          and_then (expect (setup.subscribe transactions on_headers)) λ subscribed.
            and_then (expect (setup.create b.db_path)) λ db.
              and_then (Result.unwrap (Chain.new sys db b.auto_mine_interval)) λ opened.
                ok (record {
                  network = Network.new net subscribed;
                  chain_manager = Manager.new opened.0 Pool.new tt;
                  provider = Provider.new net;
                  miner = opened.1;
                })

  -- The two loops over addresses.
  unfoldable pub start_listenings :
      List net.Multiaddr → Replies net (Unit {0}) → Exec (NetworkProvider net) ⊥ (Unit {0})
  unfolding start_listening
  start_listenings [] replies = pure tt
  start_listenings (addr ∷ addrs) replies =
      unwrap (start_listening net addr replies) >>= λ done. start_listenings addrs replies

  unfoldable pub dial_seeds :
      List net.Multiaddr → Replies net (Unit {0}) → Exec (NetworkProvider net) ⊥ (Unit {0})
  unfolding dial
  dial_seeds [] replies = pure tt
  dial_seeds (addr ∷ addrs) replies = reads (λ p. expect (setup.last_peer_id addr)) >>= λ peer_id.
      unwrap (dial net peer_id addr replies) >>= λ done. dial_seeds addrs replies

  -- Where no address is given, the node listens on all interfaces.
  unfoldable pub listen :
      List net.Multiaddr → Replies net (Unit {0}) → Exec (NetworkProvider net) ⊥ (Unit {0})
  unfolding start_listenings
  listen [] replies = reads (λ p. expect (setup.parse (text "/ip4/0.0.0.0/tcp/0"))) >>= λ addr.
      start_listenings (addr ∷ []) replies
  listen (addr ∷ addrs) replies = start_listenings (addr ∷ addrs) replies

  -- Up to the start of the RPC server, whose chain is that of the manager: the server, and the
  -- parts that were started before, also where a step panics.
  unfoldable pub execute_with_seed_nodes :
      ClientBuilder
      → List net.Multiaddr
      → Replies net (Unit {0})
      → Result ⊥ (RpcServer (chain sys)) × Option Started
  unfolding start_network listen dial_seeds
  execute_with_seed_nodes b seed_nodes replies = elim (start_network b) [
    | ok s ↦
        let connected =
          (listen b.listening_addrs replies >>= λ done. dial_seeds seed_nodes replies) s.provider in
        (
          and_then connected.0 λ done. Rpc.build (Rpc.with_chain s.chain_manager.chain Rpc.default),
          some (record s { provider = connected.1 }),
        )
    | err e ↦ (err e, none)
    | panic ↦ (panic, none)
  ]

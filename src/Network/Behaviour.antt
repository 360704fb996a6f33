-- ===== src/Network/Behaviour.antt =====
-- src/net/network.rs: `AppBehaviour`, the behaviours of libp2p that a node runs. Those behaviours
-- and their constructors are parameters; `none` stands for an error of a constructor.
use simb.Prelude.{ℕ, Option, none, some, Bool, true, false, Str, text}
use simb.Prelude.Decimal.{decimal}
use simb.Prelude.Result.{Result, ok, expect, ◌>>=◌}
use simb.External.{Bytes}

pub record Behaviours : Type 1 where
  pub Keypair : Type 0
  pub PeerId : Type 0
  -- `keypair.public().to_peer_id()`
  pub to_peer_id : Keypair → PeerId
  -- mdns, with its default configuration.
  pub Mdns : Type 0
  pub mdns_new : PeerId → Option Mdns
  -- gossipsub: its messages and the builder of its configuration.
  pub Message : Type 0
  pub message_data : Message → Bytes
  pub ConfigBuilder : Type 0
  pub GossipsubConfig : Type 0
  pub Gossipsub : Type 0
  pub config_default : ConfigBuilder
  pub message_id_fn : (Message → Str) → ConfigBuilder → ConfigBuilder
  -- `validation_mode(ValidationMode::Strict)`
  pub validation_mode_strict : ConfigBuilder → ConfigBuilder
  -- The interval in seconds.
  pub heartbeat_interval : ℕ → ConfigBuilder → ConfigBuilder
  pub build_config : ConfigBuilder → Option GossipsubConfig
  -- `Behaviour::new` with `MessageAuthenticity::Signed`.
  pub gossipsub_new : Keypair → GossipsubConfig → Option Gossipsub
  -- kad, with a `MemoryStore` of the same peer.
  pub Kad : Type 0
  pub kad_new : PeerId → Kad
  -- `set_mode(Some(Mode::Server))`
  pub set_mode_server : Kad → Kad
  -- request_response, for one protocol with `ProtocolSupport::Full`, with its default
  -- configuration.
  pub RequestResponse : Type 0
  pub request_response_new : Str → RequestResponse
  -- What the standard library's `DefaultHasher` makes of a text of bytes, a u64.
  pub hash : Bytes → ℕ

module _ (lib : Behaviours) where
  pub record AppBehaviour : Type 0 where
    pub request_response : lib.RequestResponse
    pub mdns : Option lib.Mdns
    pub gossipsub : lib.Gossipsub
    pub kad : lib.Kad

  -- Messages with the same data are one message.
  unfoldable pub message_id : lib.Message → Str
  message_id message = decimal (lib.hash (lib.message_data message))

  unfoldable pub new_mdns : {E : Type 0} → lib.PeerId → Bool → Result E (Option lib.Mdns)
  new_mdns peer_id true = do behaviour ← expect (lib.mdns_new peer_id); ok (some behaviour)
  new_mdns peer_id false = ok none

  abbrev pub gossipsub_config : lib.ConfigBuilder
  gossipsub_config =
      lib.heartbeat_interval 10
        (lib.validation_mode_strict (lib.message_id_fn message_id lib.config_default))

  unfoldable pub new : {E : Type 0} → lib.Keypair → Bool → Result E AppBehaviour
  unfolding message_id new_mdns
  new keypair enable_mdns = do
    mdns ← new_mdns (lib.to_peer_id keypair) enable_mdns
    config ← expect (lib.build_config gossipsub_config)
    gossipsub ← expect (lib.gossipsub_new keypair config)
    ok (record {
      request_response = lib.request_response_new (text "/chain");
      mdns = mdns;
      gossipsub = gossipsub;
      kad = lib.set_mode_server (lib.kad_new (lib.to_peer_id keypair));
    })

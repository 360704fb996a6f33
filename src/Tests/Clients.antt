-- ===== src/Tests/Clients.antt =====
-- The theorem about the start of a node, on the swarm and the database in memory.
use simb.External.{Bytes}
use simb.Network.Behaviour
use simb.Network.Behaviour.{Behaviours}
use simb.Prelude.{ℕ, Str, ◌≡◌, refl, [], ◌∷◌, none, some, true, ◌==◌, if◌then◌else◌}
use simb.Prelude.BTreeMap
use simb.Prelude.Order.{str_ord, ℕ_ord}
use simb.Prelude.Result.{ok, panic}
use simb.BlockTree.Reads.{genesis}
use simb.BlockTree.Chain
use simb.Network.Messages
use simb.Pool
use simb.Manager
use simb.Network
use simb.Provider
use simb.Client.{
  Setup, ClientBuilder, Started, default, with_listening_addrs, with_auto_mine_interval,
  start_network, execute_with_seed_nodes,
}
use simb.Client.Commands.{listenings, dials}
use simb.Client.Starting.{server, starts_lem}
use simb.Tests.Memory.{memory_laws, Rows, memory, encode}
use simb.Tests.Nets.{swarm_net, swarm}

-- An address ends with a peer id if it is above 10.
-- Behaviours that are made without an error, with key pairs of some type.
abbrev pub behaviours : Type 0 → Behaviours
behaviours K = record {
  Keypair = K;
  PeerId = K;
  to_peer_id = λ keypair. keypair;
  Mdns = K;
  mdns_new = λ peer. some peer;
  Message = Bytes;
  message_data = λ message. message;
  ConfigBuilder = Unit;
  GossipsubConfig = Unit;
  Gossipsub = K;
  config_default = tt;
  message_id_fn = λ id builder. builder;
  validation_mode_strict = λ builder. builder;
  heartbeat_interval = λ seconds builder. builder;
  build_config = λ builder. some builder;
  gossipsub_new = λ keypair config. some keypair;
  Kad = K;
  kad_new = λ peer. peer;
  set_mode_server = λ kad. kad;
  RequestResponse = Str;
  request_response_new = λ protocol. protocol;
  hash = λ bytes. 0;
}

abbrev setup : Setup swarm_net memory
setup = record {
  behaviours = behaviours Unit;
  create = λ path. some (record { headers = []; hashes = [] });
  build_swarm = λ keypair behaviour. some swarm;
  subscribe = λ topic s. some s;
  parse = λ addr. some 0;
  last_peer_id = λ addr. if addr == 7 then none else some addr;
}

abbrev node : ClientBuilder setup
node = with_listening_addrs setup (20 ∷ 21 ∷ []) (default setup tt)

abbrev new_rows : Rows
new_rows = record {
  headers = (0, encode (genesis memory)) ∷ [];
  hashes = ((genesis memory).hash, 0) ∷ [];
}

abbrev started : Started setup
started = record {
  network = Network.new swarm_net swarm;
  chain_manager = Manager.new new_rows Pool.new tt;
  provider = Provider.new swarm_net;
  miner = none;
}

starts : start_network setup node ≡ ok started
unfolding start_network default Behaviour.new Chain.new genesis BTreeMap.put
starts = refl

starts_lem_example :
    let replies = λ (n : ℕ). some (ok tt) in
    let done = some (record started {
      provider = record {
        command_send =
            Messages.start_listening 20 0
            ∷ Messages.start_listening 21 1
            ∷ Messages.dial 8 8 2
            ∷ Messages.dial 9 9 3
            ∷ [];
        received = true;
        next_channel = 4;
      };
    }) in
    (execute_with_seed_nodes setup node (8 ∷ 9 ∷ []) replies ≡ (ok (server setup started), done))
    × (execute_with_seed_nodes setup node (8 ∷ 9 ∷ 7 ∷ 6 ∷ []) replies ≡ (panic, done))
    × (execute_with_seed_nodes setup (with_auto_mine_interval setup (some 0) node) (6 ∷ []) replies
        ≡ (panic, none))
unfolding Provider.new listenings dials
starts_lem_example =
    starts_lem setup (λ n. some (ok tt)) (λ n. refl) memory_laws node started (20 ∷ 21 ∷ [])
      ((8, 8) ∷ (9, 9) ∷ []) 7 (6 ∷ []) starts refl (refl, (refl, tt)) refl

-- ===== src/Tests/Mains.antt =====
-- The theorem about the options of the command line, with key pairs that are their secret bytes.
use simb.Prelude.{ℕ, ◌≡◌, ◌≢◌, refl, ◌∙◌, sym, [], ◌∷◌, none, some, arith, text}
use mathlib.Core.Logic.{◌↔◌}
use mathlib.Core.Option.{some-injective}
use simb.External.{Bytes}
use simb.Prelude.Result.{ok}
use simb.Provider.{Replies}
use simb.Client.{
  Setup, ClientBuilder, default, with_db_path, with_keypair, with_auto_mine_interval,
  execute_with_seed_nodes,
}
use simb.Prelude.Decimal.{decimal}
use simb.Main.{Options, default_path, seed_bytes, settings, keypair_of, main}
use simb.Main.Apart.{nodes_apart}
use simb.Tests.Memory.{memory}
use simb.Tests.Clients.{behaviours}
use simb.Tests.Nets.{swarm_net, swarm}

abbrev setup : Setup swarm_net memory
setup = record {
  behaviours = behaviours Bytes;
  create = λ path. some (record { headers = []; hashes = [] });
  build_swarm = λ keypair behaviour. some swarm;
  subscribe = λ topic s. some s;
  parse = λ addr. some 0;
  last_peer_id = λ addr. some addr;
}

abbrev with_seed : ℕ → Options ℕ
with_seed seed = record {
  peers = 8 ∷ [];
  db_path = none;
  auto_mine_interval = some 3;
  seed = some seed;
}

abbrev node : ℕ → ClientBuilder setup
node seed = with_auto_mine_interval setup (some 3) (
    with_keypair setup (seed_bytes seed)
      (with_db_path setup (default_path (some seed)) (default setup [])))

starts_as : (seed : ℕ) → settings setup some [] (1 ∷ []) (with_seed seed) ≡ ok (node seed)
unfolding settings keypair_of
starts_as seed = refl

path_lem : default_path (some 207) ≡ text "./db-207.redb"
unfolding default_path decimal
path_lem = refl

abbrev granted : Replies swarm_net (Unit {0})
granted n = some (ok tt)

nodes_apart_example :
    (((node 12).db_path ≡ (node 207).db_path) ↔ (◌≡◌ {A = ℕ} 12 207))
    × (((node 12).keypair ≡ (node 207).keypair) ↔ (◌≡◌ {A = ℕ} 12 207))
    × ((node 12).db_path ≢ default_path none)
    × (main setup some [] (1 ∷ []) (with_seed 12) granted
        ≡ execute_with_seed_nodes setup (node 12) (8 ∷ []) granted)
    × (main setup some [] (1 ∷ []) (with_seed 207) granted
        ≡ execute_with_seed_nodes setup (node 207) (8 ∷ []) granted)
nodes_apart_example =
    nodes_apart setup some (λ s t k e e'. some-injective _ _ (e ∙ sym e')) (with_seed 12)
      (with_seed 207) 12 207 [] [] (1 ∷ []) (1 ∷ []) (node 12) (node 207) granted refl refl refl
      refl (omega arith) (omega arith) (starts_as 12) (starts_as 207)

-- ===== src/Main.antt =====
-- src/main.rs: the options of the command line, and the node that they start. The reading of the
-- command line (argh) and the set-up of the log are left out; the two generated key pairs, one for
-- the default settings and one where no seed is given, are arguments.
pub mod Apart
use simb.Prelude.{
  ℕ, suc, ◌+◌, ◌/◌, ◌%◌, List, [], ◌∷◌, ◌++◌, Option, none, some, Str, text, ltb, if◌then◌else◌,
  replicate,
}
use simb.Prelude.Decimal.{decimal}
use simb.Prelude.Result.{Result, ok, err, panic, expect}
use simb.Interface.{Failures}
use simb.External.{System, Bytes}
use simb.BlockTree.Chain.{chain}
use simb.Rpc.{RpcServer}
use simb.Network.Swarm.{Libp2p}
use simb.Provider.{Replies}
use simb.Client.{
  Setup, ClientBuilder, Started, default, with_db_path, with_keypair, with_auto_mine_interval,
  execute_with_seed_nodes,
}

-- `seed` is a u8.
pub record Options (Multiaddr : Type 0) : Type 0 where
  pub peers : List Multiaddr
  pub db_path : Option Str
  pub auto_mine_interval : Option ℕ
  pub seed : Option ℕ

-- The path where the option gives none.
unfoldable pub default_path : Option ℕ → Str
unfolding decimal
default_path (some seed) = text "./db-" ++ decimal seed ++ text ".redb"
default_path none = text "./db.redb"

abbrev pub unwrap_or : Str → Option Str → Str
unwrap_or path none = path
unwrap_or path (some given) = given

unfoldable pub seed_bytes : ℕ → Bytes
seed_bytes seed = seed ∷ replicate 31 0

module _ {F : Failures} {net : Libp2p F} {sys : System} (setup : Setup net sys)
    (ed25519_from_bytes : Bytes → Option setup.behaviours.Keypair)
    (unused generated : setup.behaviours.Keypair) where
  unfoldable pub keypair_of : Option ℕ → Result ⊥ setup.behaviours.Keypair
  unfolding seed_bytes
  keypair_of (some seed) = expect (ed25519_from_bytes (seed_bytes seed))
  keypair_of none = ok generated

  -- The builder that is started.
  unfoldable pub settings : Options net.Multiaddr → Result ⊥ (ClientBuilder setup)
  unfolding keypair_of default default_path
  settings opts = elim (keypair_of opts.seed) [
    | ok keypair ↦ ok (
        with_auto_mine_interval setup opts.auto_mine_interval (
          with_keypair setup keypair (
            with_db_path setup (unwrap_or (default_path opts.seed) opts.db_path)
              (default setup unused))))
    | err e ↦ elim e [ ]
    | panic ↦ panic
  ]

  unfoldable pub main :
      Options net.Multiaddr
      → Replies net (Unit {0})
      → Result ⊥ (RpcServer (chain sys)) × Option (Started setup)
  unfolding settings execute_with_seed_nodes
  main opts replies = elim (settings opts) [
    | ok builder ↦ execute_with_seed_nodes setup builder opts.peers replies
    | err e ↦ elim e [ ]
    | panic ↦ (panic, none)
  ]

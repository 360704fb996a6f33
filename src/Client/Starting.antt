-- ===== src/Client/Starting.antt =====
-- src/client.rs: the commands of a node that starts.
use simb.Prelude.{
  text, ℕ, ◌+◌, ◌≡◌, refl, ap, ◌∙◌, List, [], ◌∷◌, ◌++◌, map, Option, none, some, true, arith,
  length, All, Option-cases, inl, inr,
}
use mathlib.Core.Option.{some-injective}
use mathlib.Core.List.{append-nil}
use simb.Prelude.Result
use simb.Prelude.Result.{ok, err, panic, and_then, unwrap-panic}
use simb.Prelude.Exec.{◌>>=◌}
use simb.Interface.{Failures}
use simb.External.{System, Laws, write_rows}
use simb.Network.Swarm.{Libp2p}
use simb.Network.Messages.{NetworkProviderMessage}
use simb.Provider.{NetworkProvider, Replies, start_listening, dial, send_command}
use simb.Provider
use simb.Rpc
use simb.Rpc.{RpcServer}
use simb.BlockTree.Reads.{genesis}
use simb.BlockTree.Miner
use simb.BlockTree.Chain
use simb.BlockTree.Chain.{chain, spawn_miner}
use simb.Client.{
  Setup, ClientBuilder, Started, dial_seeds, listen, start_network, execute_with_seed_nodes,
  with_auto_mine_interval,
}
use simb.Client.Commands.{
  after, listenings, dials, length-listenings, after-after, start_listenings_lem, dial_seeds_lem,
}

module _ {F : Failures} {net : Libp2p F} {sys : System} (setup : Setup net sys) where
  -- What the commands of the whole start are, and the provider after them.
  abbrev pub commands :
      List net.Multiaddr → List (net.PeerId × net.Multiaddr) → List (NetworkProviderMessage net)
  commands addrs seeds = listenings net addrs 0 ++ dials net seeds (length addrs)

  -- The addresses that a node listens on.
  abbrev pub addresses : List net.Multiaddr → Option (List net.Multiaddr)
  addresses [] = elim (setup.parse (text "/ip4/0.0.0.0/tcp/0")) [
    | none ↦ none
    | some addr ↦ some (addr ∷ [])
  ]
  addresses (addr ∷ addrs) = some (addr ∷ addrs)

  -- The RPC server that the node starts.
  abbrev pub server : Started setup → RpcServer (chain sys)
  server s = record {
    addr = record { ip = text "127.0.0.1"; port = 8545 };
    chain = s.chain_manager.chain;
  }

module _ {F : Failures} {net : Libp2p F} {sys : System} (setup : Setup net sys)
    (replies : Replies net (Unit {0})) (granted : (n : ℕ) → replies n ≡ some (ok tt)) where
  listen_lem :
      (given addrs : List net.Multiaddr) (p : NetworkProvider net)
      → p.received ≡ true
      → addresses setup given ≡ some addrs
      → listen setup given replies p ≡ (ok tt, after p (listenings net addrs p.next_channel))
  unfolding listen
  listen_lem [] addrs p there e = elim (Option-cases (setup.parse (text "/ip4/0.0.0.0/tcp/0"))) [
    | inl missing ↦ absurd (ground (arith, missing))
    | inr (addr, f) ↦
        rw (f, listen)
          (start_listenings_lem setup replies granted (addr ∷ []) p there
            ∙ ap (λ xs. (ok tt, after p (listenings net xs p.next_channel))) (ground (arith, f)))
  ]
  listen_lem (addr ∷ given) addrs p there e =
      start_listenings_lem setup replies granted (addr ∷ given) p there
      ∙ ap (λ xs. (ok tt, after p (listenings net xs p.next_channel))) (some-injective _ _ e)

  start_network-provider :
      (b : ClientBuilder setup) (s : Started setup)
      → start_network setup b ≡ ok s
      → s.provider ≡ Provider.new net
  unfolding start_network
  start_network-provider b s e = ground arith

  -- With an interval of zero no miner can be made, whatever comes before.
  new-zero :
      (laws : Laws sys) (db : sys.Db) → Result.unwrap {F = ⊥} (Chain.new sys db (some 0)) ≡ panic
  unfolding Chain.new Miner.new
  new-zero laws db =
      unwrap-panic
        (Result.unwrap (
          write_rows sys db (genesis sys).number (sys.encode_header (genesis sys))
            (genesis sys).hash))
        (λ db'. and_then (spawn_miner sys db' (some 0)) λ miner. ok (db', miner))
        (λ db'. rw (laws.interval-zero, spawn_miner) refl)

  start_network-zero :
      (laws : Laws sys) (b : ClientBuilder setup)
      → start_network setup (with_auto_mine_interval setup (some 0) b) ≡ panic
  unfolding start_network
  start_network-zero laws b = grind (arith, new-zero laws)

  connected_lem :
      (b : ClientBuilder setup) (s : Started setup) (addrs : List net.Multiaddr)
      (seeds : List (net.PeerId × net.Multiaddr)) (rest : List net.Multiaddr)
      → start_network setup b ≡ ok s
      → addresses setup b.listening_addrs ≡ some addrs
      → All (λ seed. setup.last_peer_id seed.1 ≡ some seed.0) seeds
      → (listen setup b.listening_addrs replies >>= λ done.
            dial_seeds setup (map (λ seed. seed.1) seeds ++ rest) replies)
          s.provider
        ≡ dial_seeds setup rest replies (after s.provider (commands setup addrs seeds))
  unfolding Provider.new
  connected_lem b s addrs seeds rest started given named =
      let new_provider = start_network-provider b s started in
      let there : s.provider.received ≡ true = ap (λ p. p.received) new_provider in
      let first : s.provider.next_channel ≡ 0 = ap (λ p. p.next_channel) new_provider in
      let listened = listen_lem b.listening_addrs addrs s.provider there given in
      let none_before : 0 + length addrs ≡ length addrs = omega arith in
      let same : listenings net addrs s.provider.next_channel
            ++ dials net seeds
                (s.provider.next_channel + length (listenings net addrs s.provider.next_channel))
          ≡ commands setup addrs seeds =
        rw (first, length-listenings net addrs 0, none_before) refl in
      rw listened (
        dial_seeds_lem setup replies granted seeds rest
          (after s.provider (listenings net addrs s.provider.next_channel)) there named
        ∙ ap (dial_seeds setup rest replies)
            (after-after s.provider _ _ ∙ ap (after s.provider) same))

  -- A node that starts, where its swarm and its database can be opened and the calls of the
  -- provider succeed, listens on its addresses, or on all interfaces if it has none, and then dials
  -- the seed nodes, each command once, in this order and with a channel of its own; then it starts
  -- the RPC server on its chain. A seed whose address does not end with a peer id makes the start
  -- panic, after the commands for what was before it; and an interval of zero for the miner makes
  -- it panic before any command, with no part of the node started.
  pub starts_lem :
      (laws : Laws sys) (b : ClientBuilder setup) (s : Started setup) (addrs : List net.Multiaddr)
      (seeds : List (net.PeerId × net.Multiaddr)) (bad : net.Multiaddr) (more : List net.Multiaddr)
      → start_network setup b ≡ ok s
      → addresses setup b.listening_addrs ≡ some addrs
      → All (λ seed. setup.last_peer_id seed.1 ≡ some seed.0) seeds
      → setup.last_peer_id bad ≡ none
      → let done = some (record s { provider = after s.provider (commands setup addrs seeds) }) in
        (execute_with_seed_nodes setup b (map (λ seed. seed.1) seeds) replies
          ≡ (ok (server setup s), done))
        × (execute_with_seed_nodes setup b (map (λ seed. seed.1) seeds ++ bad ∷ more) replies
            ≡ (panic, done))
        × (execute_with_seed_nodes setup (with_auto_mine_interval setup (some 0) b) more replies
            ≡ (panic, none))
  unfolding execute_with_seed_nodes Rpc.build Rpc.default dial_seeds
  starts_lem laws b s addrs seeds bad more started given named unnamed =
      let all = connected_lem b s addrs seeds [] started given named in
      let some_left = connected_lem b s addrs seeds (bad ∷ more) started given named in
      (
        rw (started, execute_with_seed_nodes)
            (rw (← append-nil (map (λ seed. seed.1) seeds)) (rw all refl)),
        rw (started, execute_with_seed_nodes) (rw some_left (rw unnamed refl)),
        rw (start_network-zero laws b, execute_with_seed_nodes) refl,
      )

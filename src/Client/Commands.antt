-- ===== src/Client/Commands.antt =====
-- src/client.rs: the commands of the two loops over addresses.
use simb.Prelude.{
  ℕ, suc, ◌+◌, ◌≡◌, refl, sym, ap, ◌∙◌, List, [], ◌∷◌, ◌++◌, map, some, true, arith, length,
  length-append, All,
}
use mathlib.Core.List.{append_assoc, append-nil}
use simb.Prelude.Result.{ok}
use simb.Interface.{Failures}
use simb.External.{System}
use simb.Network.Swarm.{Libp2p}
use simb.Network.Messages
use simb.Network.Messages.{NetworkProviderMessage}
use simb.Provider.{NetworkProvider, Replies, start_listening, dial, send_command}
use simb.Client.{Setup, start_listenings, dial_seeds}

module _ {F : Failures} (net : Libp2p F) where
  -- The commands for addresses and for seeds, with the channels from a number on.
  unfoldable pub listenings : List net.Multiaddr → ℕ → List (NetworkProviderMessage net)
  listenings [] n = []
  listenings (addr ∷ addrs) n = Messages.start_listening addr n ∷ listenings addrs (n + 1)

  unfoldable pub dials : List (net.PeerId × net.Multiaddr) → ℕ → List (NetworkProviderMessage net)
  dials [] n = []
  dials ((peer_id, addr) ∷ seeds) n = Messages.dial peer_id addr n ∷ dials seeds (n + 1)

  pub length-listenings :
      (addrs : List net.Multiaddr) (n : ℕ) → length (listenings addrs n) ≡ length addrs
  unfolding listenings
  length-listenings [] n = refl
  length-listenings (addr ∷ addrs) n = ap suc (length-listenings addrs (n + 1))

module _ {F : Failures} {net : Libp2p F} where
  -- The provider once so many commands more are sent, each with a channel of its own.
  abbrev pub after : NetworkProvider net → List (NetworkProviderMessage net) → NetworkProvider net
  after p commands = record p {
    command_send = p.command_send ++ commands;
    next_channel = p.next_channel + length commands;
  }

  abbrev sent : NetworkProvider net → NetworkProviderMessage net → NetworkProvider net
  sent p c = record p { command_send = p.command_send ++ c ∷ []; next_channel = p.next_channel + 1 }

  pub same_provider :
      (p : NetworkProvider net) (a b : List (NetworkProviderMessage net)) (n k : ℕ)
      → a ≡ b
      → n ≡ k
      → record p { command_send = a; next_channel = n }
        ≡ record p { command_send = b; next_channel = k }
  same_provider p a b n k e e' = rw (e, e') refl

  pub after-none : (p : NetworkProvider net) → p ≡ after p []
  after-none p = same_provider p _ _ _ _ (sym (append-nil p.command_send)) (omega arith)

  pub after-after :
      (p : NetworkProvider net) (cs ds : List (NetworkProviderMessage net))
      → after (after p cs) ds ≡ after p (cs ++ ds)
  after-after p cs ds =
      same_provider p _ _ _ _ (append_assoc p.command_send cs ds)
        (omega (arith, length-append cs ds))

  -- One command more.
  pub after-step :
      (p : NetworkProvider net) (c : NetworkProviderMessage net)
      (cs : List (NetworkProviderMessage net))
      → after (sent p c) cs ≡ after p (c ∷ cs)
  after-step p c cs = after-after p (c ∷ []) cs

module _ {F : Failures} {net : Libp2p F} {sys : System} (setup : Setup net sys)
    (replies : Replies net (Unit {0})) (granted : (n : ℕ) → replies n ≡ some (ok tt)) where
  start_listening_lem :
      (addr : net.Multiaddr) (p : NetworkProvider net)
      → p.received ≡ true
      → start_listening net addr replies p
        ≡ (ok tt, sent p (Messages.start_listening addr p.next_channel))
  unfolding start_listening send_command
  start_listening_lem addr p there = rw (there, granted p.next_channel, send_command) refl

  pub start_listenings_lem :
      (addrs : List net.Multiaddr) (p : NetworkProvider net)
      → p.received ≡ true
      → start_listenings setup addrs replies p
        ≡ (ok tt, after p (listenings net addrs p.next_channel))
  unfolding start_listenings listenings
  start_listenings_lem [] p there = ap (λ q. (ok tt, q)) (after-none p)
  start_listenings_lem (addr ∷ addrs) p there =
      let p' = sent p (Messages.start_listening addr p.next_channel) in
      rw (start_listening_lem addr p there, start_listenings)
        (start_listenings_lem addrs p' there ∙ ap (λ q. (ok tt, q)) (after-step p _ _))

  dial_lem :
      (peer_id : net.PeerId) (addr : net.Multiaddr) (p : NetworkProvider net)
      → p.received ≡ true
      → dial net peer_id addr replies p
        ≡ (ok tt, sent p (Messages.dial peer_id addr p.next_channel))
  unfolding dial send_command
  dial_lem peer_id addr p there = rw (there, granted p.next_channel, send_command) refl

  pub dial_seeds_lem :
      (seeds : List (net.PeerId × net.Multiaddr)) (rest : List net.Multiaddr)
      (p : NetworkProvider net)
      → p.received ≡ true
      → All (λ seed. setup.last_peer_id seed.1 ≡ some seed.0) seeds
      → dial_seeds setup (map (λ seed. seed.1) seeds ++ rest) replies p
        ≡ dial_seeds setup rest replies (after p (dials net seeds p.next_channel))
  unfolding dial_seeds dials
  dial_seeds_lem [] rest p there named = ap (dial_seeds setup rest replies) (after-none p)
  dial_seeds_lem ((peer_id, addr) ∷ seeds) rest p there named =
      let p' = sent p (Messages.dial peer_id addr p.next_channel) in
      rw (named.0, dial_seeds)
        (rw (dial_lem peer_id addr p there, dial_seeds)
          (dial_seeds_lem seeds rest p' there named.1
            ∙ ap (dial_seeds setup rest replies) (after-step p _ _)))

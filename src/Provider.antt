-- ===== src/Provider.antt =====
-- src/net/provider.rs: `NetworkProvider`, by which the other parts send their commands to the
-- network manager and await what becomes of them. What comes back on a one-shot channel is an
-- argument, `replies`, by the number of the channel: nothing where the sender is dropped.
pub mod Broadcasting
pub mod Dialing
pub mod Received
use simb.Prelude.{
  ℕ, ◌+◌, List, [], ◌∷◌, ◌++◌, Option, none, some, Bool, true, false, Str, if◌then◌else◌,
}
use simb.Prelude.Result
use simb.Prelude.Result.{Result, ok, err, panic, and_then, map_err, expect}
use simb.Prelude.Exec.{Exec, pure, reads, unwrap, continue, ◌>>=◌}
use simb.Interface.{
  Header, Transaction, HeadersRequest, Block, Failures, RequestError, from_channel_error,
}
use simb.Interface.Providers.{
  BodyRequest, PeerProvider, HeadersProvider, BodyProvider, BroadcastProvider,
}
use simb.Interface.Providers
use simb.Network.Swarm.{Libp2p}
use simb.Network.Messages
use simb.Network.Messages.{GetHeadersRequest, NetworkProviderMessage}

module _ {F : Failures} (net : Libp2p F) where
  pub record NetworkProvider : Type 0 where
    -- What was sent, and whether the manager still receives.
    pub command_send : List (NetworkProviderMessage net)
    pub received : Bool
    -- The number of the next one-shot channel.
    pub next_channel : ℕ

  unfoldable pub new : NetworkProvider
  new = record { command_send = []; received = true; next_channel = 0 }

  -- `RequestResponse<A>`, and a call that may end with one.
  abbrev pub RequestResponse : Type 0 → Type 0
  RequestResponse A = Result (RequestError F) A

  abbrev pub Call : Type 0 → Type 0
  Call A = Providers.Call F NetworkProvider A

  abbrev pub Replies : Type 0 → Type 0
  Replies A = ℕ → Option (RequestResponse A)

  -- `oneshot::channel()`
  abbrev pub with_channel : {A : Type 0} → (ℕ → Call A) → Call A
  with_channel f p = f p.next_channel (record p { next_channel = p.next_channel + 1 })

  unfoldable pub send_command : NetworkProviderMessage net → Exec NetworkProvider Str (Unit {0})
  send_command cmd p =
      if p.received
      then (ok tt, record p { command_send = p.command_send ++ cmd ∷ [] })
      else (err net.send_error, p)

  -- The conversion of the error that `?` makes.
  abbrev pub converted : {A : Type 0} → Exec NetworkProvider Str A → Call A
  converted m p = (map_err from_channel_error (m p).0, (m p).1)

  -- `let _ = ...`: whether the command was sent.
  abbrev pub attempt : Exec NetworkProvider Str (Unit {0}) → Call Bool
  attempt m p = elim (m p).0 [
    | ok done ↦ (ok true, (m p).1)
    | err e ↦ (ok false, (m p).1)
    | panic ↦ (panic, (m p).1)
  ]

  -- `rx.await.expect(...)`
  abbrev pub await_expected : {A : Type 0} → Option (RequestResponse A) → RequestResponse A
  await_expected reply = and_then (expect reply) (λ response. response)

  -- `rx.await?`
  abbrev pub await : {A : Type 0} → Option (RequestResponse A) → RequestResponse A
  await none = err (from_channel_error net.recv_error)
  await (some response) = response

  -- `receiver.await?` where a command that was not sent has dropped the sender.
  abbrev pub await_sent : {A : Type 0} → Bool → Option (RequestResponse A) → RequestResponse A
  await_sent sent reply = await (if sent then reply else none)

  unfoldable pub start_listening : net.Multiaddr → Replies (Unit {0}) → Call (Unit {0})
  unfolding send_command
  start_listening addr replies = with_channel λ tx. do
    sent ← unwrap (send_command (Messages.start_listening addr tx))
    reads (λ p. await_expected (replies tx))

  unfoldable pub dial : net.PeerId → net.Multiaddr → Replies (Unit {0}) → Call (Unit {0})
  unfolding send_command
  dial peer_id peer_addr replies = with_channel λ tx. do
    sent ← converted (send_command (Messages.dial peer_id peer_addr tx))
    reads (λ p. await (replies tx))

  unfoldable pub listen_addrs : Replies (List net.Multiaddr) → Call (List net.Multiaddr)
  unfolding send_command
  listen_addrs replies = with_channel λ tx. do
    sent ← converted (send_command (Messages.listen_addrs tx))
    reads (λ p. await (replies tx))

  unfoldable pub get_closest_peers : Replies (List net.PeerId) → Call (List net.PeerId)
  unfolding send_command
  get_closest_peers replies = with_channel λ sender. do
    sent ← attempt (send_command (Messages.get_closest_peers sender))
    reads (λ p. await_sent sent (replies sender))

  unfoldable pub get_headers :
      net.PeerId → HeadersRequest → Replies (List Header) → Call (List Header)
  unfolding send_command
  get_headers peer_id request replies = with_channel λ sender. do
    sent ← attempt (
        send_command
          (Messages.get_headers (record { peer = peer_id; request = request; sender = sender })))
    reads (λ p. await_sent sent (replies sender))

  -- It is not implemented.
  unfoldable pub get_bodies : BodyRequest → Exec NetworkProvider ⊥ (List Block)
  get_bodies request p = (panic, p)

  unfoldable pub broadcast_block_header : Header → Replies (Unit {0}) → Call (Unit {0})
  unfolding send_command
  broadcast_block_header header replies = with_channel λ tx. do
    sent ← unwrap (send_command (Messages.broadcast_block_header header tx))
    reads (λ p. await_expected (replies tx))

  unfoldable pub broadcast_transactions : List Transaction → Replies (Unit {0}) → Call (Unit {0})
  unfolding send_command
  broadcast_transactions transactions replies = with_channel λ tx. do
    sent ← unwrap (send_command (Messages.broadcast_transactions tx transactions))
    reads (λ p. await_expected (replies tx))

  -- The four traits, by what comes back on the channels.
  abbrev pub peer_provider : Replies (List net.PeerId) → PeerProvider F NetworkProvider net.PeerId
  peer_provider replies = record { get_closest_peers = get_closest_peers replies }

  abbrev pub headers_provider : Replies (List Header) → HeadersProvider F NetworkProvider net.PeerId
  headers_provider replies = record {
    get_headers = λ peer_id request. get_headers peer_id request replies;
  }

  abbrev pub body_provider : BodyProvider F NetworkProvider
  body_provider = record { get_bodies = get_bodies }

  abbrev pub broadcast_provider : Replies (Unit {0}) → BroadcastProvider F NetworkProvider
  broadcast_provider replies = record {
    broadcast_block_header = λ header. broadcast_block_header header replies;
    broadcast_transactions = λ transactions. broadcast_transactions transactions replies;
  }

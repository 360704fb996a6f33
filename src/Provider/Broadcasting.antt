-- ===== src/Provider/Broadcasting.antt =====
-- src/net/provider.rs: what the calls do whose futures the other parts await.
use simb.Prelude.{ℕ, ◌+◌, ◌≡◌, refl, List, [], ◌∷◌, ◌++◌, true}
use simb.Interface.{Header, Transaction, HeadersRequest, Failures}
use simb.Network.Swarm.{Libp2p}
use simb.Network.Messages
use simb.Network.Messages.{NetworkProviderMessage}
use simb.Provider.{
  NetworkProvider, Replies, send_command, await_expected, broadcast_block_header,
  broadcast_transactions, get_headers, get_closest_peers, await,
}

module _ {F : Failures} {net : Libp2p F} where
  -- The provider after a command with a channel of its own.
  abbrev pub sent_with_channel :
      (ℕ → NetworkProviderMessage net) → NetworkProvider net → NetworkProvider net
  sent_with_channel command p = record p {
    command_send = p.command_send ++ command p.next_channel ∷ [];
    next_channel = p.next_channel + 1;
  }

  -- The two broadcasts send one command each, on a channel of their own, and end with what comes
  -- back on it, or panic where its sender is dropped.
  module _ (p : NetworkProvider net) (replies : Replies net (Unit {0}))
      (there : p.received ≡ true) where
    pub broadcast_header_lem :
        (header : Header)
        → broadcast_block_header net header replies p ≡ (
          await_expected net (replies p.next_channel),
          sent_with_channel (λ tx. Messages.broadcast_block_header header tx) p,
        )
    unfolding broadcast_block_header send_command
    broadcast_header_lem header = rw there refl

    pub broadcast_transactions_lem :
        (transactions : List Transaction)
        → broadcast_transactions net transactions replies p ≡ (
          await_expected net (replies p.next_channel),
          sent_with_channel (λ tx. Messages.broadcast_transactions tx transactions) p,
        )
    unfolding broadcast_transactions send_command
    broadcast_transactions_lem transactions = rw there refl

    -- A request for headers sends one command, too, and ends with an error where the sender is
    -- dropped.
    pub get_headers_lem :
        (peer : net.PeerId) (request : HeadersRequest) (answers : Replies net (List Header))
        → get_headers net peer request answers p ≡ (
          await net (answers p.next_channel),
          sent_with_channel
              (λ tx. Messages.get_headers (record { peer = peer; request = request; sender = tx }))
              p,
        )
    unfolding get_headers send_command
    get_headers_lem peer request answers = rw there refl

    pub get_closest_peers_lem :
        (answers : Replies net (List net.PeerId))
        → get_closest_peers net answers p
          ≡ (await net (answers p.next_channel), sent_with_channel Messages.get_closest_peers p)
    unfolding get_closest_peers send_command
    get_closest_peers_lem answers = rw there refl

-- ===== src/Network/Conserved.antt =====
-- src/net/network.rs: every one-shot channel of a command is answered or dropped once, or waits in
-- one table.
use simb.Prelude.{ℕ, ◌≡◌, refl, ap, ◌⊎◌, inl, inr, Option, none, some, ◌==◌, if◌then◌else◌, arith}
use simb.Prelude.HashMap.{get}
use simb.Interface.{Failures}
use simb.Network.{
  Receivers, NetworkManager, handle_command, listening, dialing, dial_entry, sender_of,
}
use simb.Network.Swarm.{Libp2p}
use simb.Network.Messages
use simb.Network.Messages.{
  NetworkProviderMessage, GetHeadersRequest, Reply, block_header, transactions, unit_reply,
  addrs_reply,
}
use simb.Network.Account.{
  counted, count-insert, insert-IsMap, IsConsistent, waiting, account, Adds, send-Adds, drop-Adds,
}

module _ {F : Failures} (net : Libp2p F) where
  abbrev pub sender_of_command : NetworkProviderMessage net → ℕ
  sender_of_command (Messages.get_closest_peers sender) = sender
  sender_of_command (Messages.broadcast_block_header header tx) = tx
  sender_of_command (Messages.broadcast_transactions tx txs) = tx
  sender_of_command (Messages.get_headers request) = request.sender
  sender_of_command (Messages.dial peer_id peer_addr tx) = tx
  sender_of_command (Messages.listen_addrs tx) = tx
  sender_of_command (Messages.start_listening addr tx) = tx

  pub counted-sender_of :
      (k : ℕ) (o : Option (GetHeadersRequest net))
      → counted (λ tx. k == tx) (sender_of net o) ≡ counted (λ q. k == q.sender) o
  counted-sender_of k none = refl
  counted-sender_of k (some q) = refl

  listening-Adds :
      (k tx : ℕ) (r : Receivers) (x : F.TransportError ⊎ net.ListenerId) (m : NetworkManager net)
      → IsConsistent net m
      → Adds net k (if k == tx then 1 else 0) m (listening net r tx x m)
  unfolding account waiting
  listening-Adds k tx r (inl e) m i = send-Adds net k tx r _ m i
  listening-Adds k tx r (inr id) m i =
      let t = m.pending_listening in
      drop-Adds net k _ (get ⦃eq = net.listener_id_equal⦄ id t) m _
        (i.0, i.1, i.2, insert-IsMap ⦃eq = net.listener_id_equal⦄ (λ tx. k == tx) id t i.3 tx)
        (omega (arith, count-insert ⦃eq = net.listener_id_equal⦄ (λ tx. k == tx) id t i.3 tx))

  dialing-Adds :
      (k tx : ℕ) (r : Receivers) (id : net.PeerId) (addr : net.Multiaddr)
      (x : F.DialError ⊎ Unit {0}) (m : NetworkManager net)
      → IsConsistent net m
      → get ⦃eq = net.peer_id_equal⦄ id m.pending_dial ≡ none
      → Adds net k (if k == tx then 1 else 0) m (dialing net r id addr tx x m)
  unfolding account waiting
  dialing-Adds k tx r id addr (inl e) m i absent = send-Adds net k tx r _ m i
  dialing-Adds k tx r id addr (inr done) m i absent =
      let t = m.pending_dial in
      (
        omega (
          arith,
          ap (counted (λ tx. k == tx)) absent,
          count-insert ⦃eq = net.peer_id_equal⦄ (λ tx. k == tx) id t i.2 tx,
        ),
        (i.0, i.1, insert-IsMap ⦃eq = net.peer_id_equal⦄ (λ tx. k == tx) id t i.2 tx, i.3),
      )

  dial_entry-Adds :
      (k tx : ℕ) (r : Receivers) (id : net.PeerId) (addr : net.Multiaddr) (o : Option ℕ)
      (m : NetworkManager net)
      → IsConsistent net m
      → get ⦃eq = net.peer_id_equal⦄ id m.pending_dial ≡ o
      → Adds net k (if k == tx then 1 else 0) m (dial_entry net r id addr tx o m)
  unfolding account waiting
  dial_entry-Adds k tx r id addr none m i e = dialing-Adds k tx r id addr _ _ i e
  dial_entry-Adds k tx r id addr (some other) m i e = drop-Adds net k _ (some tx) m m i refl

  pub handle_command-Adds :
      (k : ℕ) (r : Receivers) (c : NetworkProviderMessage net) (m : NetworkManager net)
      → IsConsistent net m
      → Adds net k (if k == sender_of_command c then 1 else 0) m (handle_command net r c m)
  unfolding handle_command account waiting
  handle_command-Adds k r (Messages.get_closest_peers sender) m i =
      let id = (net.get_closest_peers (net.local_peer_id m.swarm) m.swarm).0 in
      let t = m.pending_get_closest_peers in
      drop-Adds net k _ (get ⦃eq = net.query_id_equal⦄ id t) m _
        (i.0, insert-IsMap ⦃eq = net.query_id_equal⦄ (λ tx. k == tx) id t i.1 sender, i.2, i.3)
        (omega (arith, count-insert ⦃eq = net.query_id_equal⦄ (λ tx. k == tx) id t i.1 sender))
  handle_command-Adds k r (Messages.broadcast_block_header header tx) m i =
      send-Adds net k tx r _ _ i
  handle_command-Adds k r (Messages.broadcast_transactions tx txs) m i = send-Adds net k tx r _ _ i
  handle_command-Adds k r (Messages.get_headers request) m i =
      let id = (net.send_request request.peer request.request m.swarm).0 in
      let t = m.pending_request_headers in
      drop-Adds net k _ (sender_of net (get ⦃eq = net.request_id_equal⦄ id t)) m _
        (
          insert-IsMap ⦃eq = net.request_id_equal⦄ (λ q. k == q.sender) id t i.0 request,
          i.1,
          i.2,
          i.3,
        )
        (omega (
          arith,
          counted-sender_of k (get ⦃eq = net.request_id_equal⦄ id t),
          count-insert ⦃eq = net.request_id_equal⦄ (λ q. k == q.sender) id t i.0 request,
        ))
  handle_command-Adds k r (Messages.dial peer_id peer_addr tx) m i =
      dial_entry-Adds k tx r peer_id peer_addr _ m i refl
  handle_command-Adds k r (Messages.listen_addrs tx) m i = send-Adds net k tx r _ _ i
  handle_command-Adds k r (Messages.start_listening addr tx) m i = listening-Adds k tx r _ _ i

-- ===== src/Network/Noted.antt =====
-- src/net/network.rs: the account of the one-shot channels over the events of the swarm.
use simb.Prelude.{
  ℕ, List, [], ◌∷◌, ◌++◌, inl, inr, Option, none, some, Bool, true, false, ◌==◌, arith, str_eq,
}
use simb.Prelude.Result.{Result, ok}
use simb.Prelude.HashMap.{get, without, without-IsMap}
use simb.Interface.{Failures, Header, RequestError}
use simb.Manager.{
  ChainNetworkEvent, incoming_new_block_header, incoming_transactions, get_block_headers,
}
use simb.Network.{Receivers, NetworkManager, handle_response_block_headers, send_event}
use simb.Network.Swarm.{Libp2p}
use simb.Network.Messages
use simb.Network.Messages.{
  block_header, transactions, GetHeadersRequest, Reply, SwarmEvent, KadEvent, MdnsEvent,
  RequestResponseEvent, peers_reply, headers_reply,
}
use simb.Network.Events.{
  handle_event, handle_mdns_event, handle_kad_event, handle_request_response_header_event,
  handle_gossipsub_message, answer_closest_peers, answer_headers, answer_dial, answer_listening,
  deliver,
}
use simb.Network.Run.{respond, HeadersReply}
use simb.Network.Account.{
  counted, count-get, tally, IsConsistent, account, Adds, send_to-Adds, Adds-from, Adds-continue,
}
use simb.Network.Account
use simb.Network.Conserved.{counted-sender_of}

module _ {F : Failures} (net : Libp2p F) (k : ℕ) (r : Receivers) where
  answer_closest_peers-Adds :
      (id : net.QueryId) (x : Result (RequestError F) (List net.PeerId)) (m : NetworkManager net)
      → IsConsistent net m
      → Adds net k 0 m (answer_closest_peers net r id x m)
  unfolding account Account.waiting
  answer_closest_peers-Adds id x m i =
      let t = m.pending_get_closest_peers in
      let m' = record m { pending_get_closest_peers = without ⦃eq = net.query_id_equal⦄ id t } in
      Adds-from net k 0 _ m m' _
        (omega (arith, count-get ⦃eq = net.query_id_equal⦄ (λ tx. k == tx) id t i.1))
        (send_to-Adds net k r _ _ m'
          (i.0, without-IsMap ⦃eq = net.query_id_equal⦄ id t i.1, i.2, i.3))

  answer_dial-Adds :
      (id : net.PeerId) (x : Reply net) (m : NetworkManager net)
      → IsConsistent net m
      → Adds net k 0 m (answer_dial net r id x m)
  unfolding account Account.waiting
  answer_dial-Adds id x m i =
      let t = m.pending_dial in
      let m' = record m { pending_dial = without ⦃eq = net.peer_id_equal⦄ id t } in
      Adds-from net k 0 _ m m' _
        (omega (arith, count-get ⦃eq = net.peer_id_equal⦄ (λ tx. k == tx) id t i.2))
        (send_to-Adds net k r _ _ m'
          (i.0, i.1, without-IsMap ⦃eq = net.peer_id_equal⦄ id t i.2, i.3))

  answer_listening-Adds :
      (id : net.ListenerId) (m : NetworkManager net)
      → IsConsistent net m
      → Adds net k 0 m (answer_listening net r id m)
  unfolding account Account.waiting
  answer_listening-Adds id m i =
      let t = m.pending_listening in
      let m' = record m { pending_listening = without ⦃eq = net.listener_id_equal⦄ id t } in
      Adds-from net k 0 _ m m' _
        (omega (arith, count-get ⦃eq = net.listener_id_equal⦄ (λ tx. k == tx) id t i.3))
        (send_to-Adds net k r _ _ m'
          (i.0, i.1, i.2, without-IsMap ⦃eq = net.listener_id_equal⦄ id t i.3))

  answer_headers-Adds :
      (id : net.OutboundRequestId) (x : Result (RequestError F) (List Header))
      (m : NetworkManager net)
      → IsConsistent net m
      → Adds net k 0 m (answer_headers net r id x m)
  unfolding account Account.waiting
  answer_headers-Adds id x m i =
      let t = m.pending_request_headers in
      let m' = record m { pending_request_headers = without ⦃eq = net.request_id_equal⦄ id t } in
      Adds-from net k 0 _ m m' _
        (omega (
          arith,
          counted-sender_of net k (get ⦃eq = net.request_id_equal⦄ id t),
          count-get ⦃eq = net.request_id_equal⦄ (λ q. k == q.sender) id t i.0,
        ))
        (send_to-Adds net k r _ _ m'
          (without-IsMap ⦃eq = net.request_id_equal⦄ id t i.0, i.1, i.2, i.3))

  send_event-Adds :
      (x : ChainNetworkEvent ℕ net.ResponseChannel) (m : NetworkManager net)
      → IsConsistent net m
      → Adds net k 0 m (send_event net r x m)
  unfolding account Account.waiting
  send_event-Adds x m i = ground arith

  deliver-Adds :
      {A : Type 0} (of_topic : Bool) (decoded : Option A)
      (event : A → ChainNetworkEvent ℕ net.ResponseChannel) (m : NetworkManager net)
      → IsConsistent net m
      → Adds net k 0 m (deliver net r of_topic decoded event m)
  unfolding account Account.waiting
  deliver-Adds false decoded event m i = (omega arith, i)
  deliver-Adds true none event m i = tt
  deliver-Adds true (some a) event m i = send_event-Adds (event a) m i

  pub handle_event-Adds :
      (next : ℕ) (e : SwarmEvent net) (m : NetworkManager net)
      → IsConsistent net m
      → Adds net k 0 m (handle_event net r next e m)
  unfolding handle_event handle_mdns_event handle_kad_event handle_request_response_header_event
      handle_gossipsub_message account Account.waiting
  handle_event-Adds next (Messages.mdns (Messages.discovered list)) m i = (omega arith, i)
  handle_event-Adds next (Messages.mdns (Messages.expired list)) m i = (omega arith, i)
  handle_event-Adds next (Messages.gossipsub_message topic data_bytes) m i =
      let first =
        deliver net r (str_eq topic (net.topic_hash block_header)) (net.decode_header data_bytes)
          incoming_new_block_header in
      Adds-continue net k 0 0 m (first m)
        (λ done.
          deliver net r (str_eq topic (net.topic_hash transactions))
            (net.decode_transactions data_bytes) incoming_transactions)
        (deliver-Adds _ (net.decode_header data_bytes) incoming_new_block_header m i)
        λ done m'. deliver-Adds _ (net.decode_transactions data_bytes) incoming_transactions m'
  handle_event-Adds next
        (Messages.kad (Messages.outbound_query_progressed id (Messages.closest_peers peers))) m i =
      answer_closest_peers-Adds id (ok peers) m i
  handle_event-Adds next
        (Messages.kad (Messages.outbound_query_progressed id Messages.closest_peers_timeout)) m i =
      answer_closest_peers-Adds id _ m i
  handle_event-Adds next
        (Messages.kad (Messages.outbound_query_progressed id Messages.other_result)) m i =
      (omega arith, i)
  handle_event-Adds next (Messages.kad Messages.other_kad) m i = (omega arith, i)
  handle_event-Adds next (Messages.request_response (Messages.request_message q channel)) m i =
      Adds-continue net k 0 0 m (send_event net r (get_block_headers next channel q) m)
        (λ done m'.
          (ok tt, record m' { incoming_peer_requests = m'.incoming_peer_requests ++ next ∷ [] }))
        (send_event-Adds _ m i) λ done m' i'. (omega arith, i')
  handle_event-Adds next (Messages.request_response (Messages.response_message id response)) m i =
      answer_headers-Adds id (ok response) m i
  handle_event-Adds next (Messages.request_response (Messages.outbound_failure id error)) m i =
      answer_headers-Adds id _ m i
  handle_event-Adds next (Messages.request_response Messages.inbound_failure) m i = (omega arith, i)
  handle_event-Adds next (Messages.request_response Messages.response_sent) m i = (omega arith, i)
  handle_event-Adds next (Messages.connection_established peer_id true) m i =
      answer_dial-Adds peer_id _ m i
  handle_event-Adds next (Messages.connection_established peer_id false) m i = (omega arith, i)
  handle_event-Adds next (Messages.outgoing_connection_error (some peer_id) error) m i =
      answer_dial-Adds peer_id _ m i
  handle_event-Adds next (Messages.outgoing_connection_error none error) m i = (omega arith, i)
  handle_event-Adds next (Messages.new_listen_addr listener_id) m i =
      answer_listening-Adds listener_id m i
  handle_event-Adds next Messages.other_event m i = (omega arith, i)

  pub respond-Adds :
      (o : Option (ℕ × List ℕ)) (reply : HeadersReply net) (m : NetworkManager net)
      → IsConsistent net m
      → Adds net k 0 m (respond net o reply m)
  unfolding handle_response_block_headers account Account.waiting
  respond-Adds none reply m i = (omega arith, i)
  respond-Adds (some o) (inl e) m i = (omega arith, i)
  respond-Adds (some o) (inr response) m i = (omega arith, i)

-- ===== src/Network/Kept.antt =====
-- src/net/network.rs: a request for headers stays in its table until it is answered.
use simb.Prelude.{ℕ, ◌≡◌, refl, ◌∙◌, List, inl, inr, Option, none, some, Bool, false, arith}
use simb.Prelude.Result.{Result}
use simb.Prelude.HashMap.{get, get-insert, get-without}
use simb.Interface.{Failures, Header, RequestError}
use simb.Manager.{take_future}
use simb.Network.{Receivers, NetworkManager, handle_command, handle_response_block_headers}
use simb.Network.Swarm.{Libp2p}
use simb.Network.Messages
use simb.Network.Messages.{
  GetHeadersRequest, SwarmEvent, NetworkProviderMessage, headers_reply, Reply,
}
use simb.Network.Events.{
  handle_event, handle_mdns_event, handle_kad_event, handle_request_response_header_event,
  handle_gossipsub_message, answer_headers,
}
use simb.Network.Run.{
  Ended, returned, waiting, Ready, select, run, go_on, respond, HeadersReply,
  poll_get_block_headers,
}
use simb.Network.Run
use simb.Network.Rounds.{Each, handled-Keeps, run-Keeps}

module _ {F : Failures} (net : Libp2p F) where
  abbrev pub same_id : net.OutboundRequestId → net.OutboundRequestId → Bool
  same_id = net.request_id_equal.same

  abbrev pub request_of :
      net.OutboundRequestId → NetworkManager net → Option (GetHeadersRequest net)
  request_of id m = get ⦃eq = net.request_id_equal⦄ id m.pending_request_headers

  -- One round answers the request of an id, or the swarm gives the id to another.
  unfoldable pub touches : net.OutboundRequestId → Ready net → NetworkManager net → Bool
  touches id (Run.event next (Messages.request_response (Messages.response_message j headers))) m =
      same_id j id
  touches id (Run.event next (Messages.request_response (Messages.outbound_failure j error))) m =
      same_id j id
  touches id (Run.event next e) m = false
  touches id (Run.command (some (Messages.get_headers q))) m =
      same_id (net.send_request q.peer q.request m.swarm).0 id
  touches id (Run.command c) m = false
  touches id (Run.response i reply) m = false
  touches id Run.bootstrap m = false

  -- A step leaves the entry of an id as it was.
  abbrev pub Keeps : net.OutboundRequestId → NetworkManager net → NetworkManager net → Type 0
  Keeps id m m' = request_of id m' ≡ request_of id m

  module _ (r : Receivers) (id : net.OutboundRequestId) where
    handle_command-Keeps :
        (c : NetworkProviderMessage net) (m : NetworkManager net)
        → touches id (Run.command (some c)) m ≡ false
        → Keeps id m (handle_command net r c m).1
    unfolding handle_command touches
    handle_command-Keeps (Messages.get_closest_peers sender) m apart = ground arith
    handle_command-Keeps (Messages.broadcast_block_header header tx) m apart = ground arith
    handle_command-Keeps (Messages.broadcast_transactions tx txs) m apart = ground arith
    handle_command-Keeps (Messages.get_headers request) m apart = ground (
      arith,
      apart,
      get-insert ⦃eq = net.request_id_equal⦄
          (net.send_request request.peer request.request m.swarm).0 id request
          m.pending_request_headers,
    )
    handle_command-Keeps (Messages.dial peer_id peer_addr tx) m apart = ground arith
    handle_command-Keeps (Messages.listen_addrs tx) m apart = ground arith
    handle_command-Keeps (Messages.start_listening addr tx) m apart = ground arith

    answer_headers-Keeps :
        (j : net.OutboundRequestId) (x : Result (RequestError F) (List Header))
        (m : NetworkManager net)
        → same_id j id ≡ false
        → Keeps id m (answer_headers net r j x m).1
    answer_headers-Keeps j x m apart =
        ground (arith, get-without ⦃eq = net.request_id_equal⦄ j id m.pending_request_headers)

    handle_event-Keeps :
        (next : ℕ) (e : SwarmEvent net) (m : NetworkManager net)
        → touches id (Run.event next e) m ≡ false
        → Keeps id m (handle_event net r next e m).1
    unfolding handle_event handle_mdns_event handle_kad_event handle_request_response_header_event
        handle_gossipsub_message touches
    handle_event-Keeps next (Messages.mdns (Messages.discovered list)) m apart = refl
    handle_event-Keeps next (Messages.mdns (Messages.expired list)) m apart = refl
    handle_event-Keeps next (Messages.gossipsub_message topic data_bytes) m apart = ground arith
    handle_event-Keeps next
          (Messages.kad (Messages.outbound_query_progressed j (Messages.closest_peers ps))) m
          apart =
        ground arith
    handle_event-Keeps next
          (Messages.kad (Messages.outbound_query_progressed j Messages.closest_peers_timeout)) m
          apart =
        ground arith
    handle_event-Keeps next
          (Messages.kad (Messages.outbound_query_progressed j Messages.other_result)) m apart =
        refl
    handle_event-Keeps next (Messages.kad Messages.other_kad) m apart = refl
    handle_event-Keeps next (Messages.request_response (Messages.request_message q channel)) m
          apart =
        ground arith
    handle_event-Keeps next (Messages.request_response (Messages.response_message j response)) m
          apart =
        answer_headers-Keeps j _ m apart
    handle_event-Keeps next (Messages.request_response (Messages.outbound_failure j error)) m
          apart =
        answer_headers-Keeps j _ m apart
    handle_event-Keeps next (Messages.request_response Messages.inbound_failure) m apart = refl
    handle_event-Keeps next (Messages.request_response Messages.response_sent) m apart = refl
    handle_event-Keeps next (Messages.connection_established peer_id is_dialer) m apart =
        ground arith
    handle_event-Keeps next (Messages.outgoing_connection_error (some peer_id) error) m apart =
        ground arith
    handle_event-Keeps next (Messages.outgoing_connection_error none error) m apart = refl
    handle_event-Keeps next (Messages.new_listen_addr listener_id) m apart = ground arith
    handle_event-Keeps next Messages.other_event m apart = refl

  respond-Keeps :
      (id : net.OutboundRequestId) (o : Option (ℕ × List ℕ)) (reply : HeadersReply net)
      (m : NetworkManager net)
      → Keeps id m (respond net o reply m).1
  unfolding handle_response_block_headers
  respond-Keeps id none reply m = refl
  respond-Keeps id (some o) (inl e) m = refl
  respond-Keeps id (some o) (inr response) m = refl

  -- No round of a run touches the request of an id.
  abbrev pub IsApart :
      net.OutboundRequestId → List (Receivers × Ready net) → NetworkManager net → Type 0
  IsApart id = Each net (λ x m. touches id x m ≡ false)

  module _ (id : net.OutboundRequestId) where
    Keeps-refl : (m : NetworkManager net) → Keeps id m m
    Keeps-refl m = refl

    Keeps-trans : (m m' m'' : NetworkManager net) → Keeps id m m' → Keeps id m' m'' → Keeps id m m''
    Keeps-trans m m' m'' kept more = more ∙ kept

    select-Keeps :
        (r : Receivers) (x : Ready net) (m : NetworkManager net)
        → touches id x m ≡ false
        → Keeps id m (select net r x m).1
    unfolding select touches take_future handle_response_block_headers poll_get_block_headers
    select-Keeps r (Run.event next e) m apart =
        handled-Keeps net (Keeps id) Keeps-refl Keeps-trans m (handle_event net r next e m)
          (handle_event-Keeps r id next e m apart)
    select-Keeps r (Run.command (some c)) m apart =
        handled-Keeps net (Keeps id) Keeps-refl Keeps-trans m (handle_command net r c m)
          (handle_command-Keeps r id c m apart)
    select-Keeps r (Run.command none) m apart = refl
    select-Keeps r (Run.response i reply) m apart =
        let reply' = poll_get_block_headers net reply in
        handled-Keeps net (Keeps id) Keeps-refl Keeps-trans m (Run.handle_response net i reply' m)
          (respond-Keeps id (take_future i m.incoming_peer_requests) reply' m)
    select-Keeps r Run.bootstrap m apart = refl

    pub run-apart :
        (xs : List (Receivers × Ready net)) (m : NetworkManager net)
        → IsApart id xs m
        → Keeps id m (run net xs m).1
    run-apart = run-Keeps net (Keeps id) Keeps-refl Keeps-trans _ select-Keeps

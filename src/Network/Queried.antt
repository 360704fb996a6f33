-- ===== src/Network/Queried.antt =====
-- src/net/network.rs: a query for the closest peers stays in its table until it is answered.
use simb.Prelude.{ℕ, ◌≡◌, refl, ◌∙◌, List, inl, inr, Option, none, some, Bool, false, arith}
use simb.Prelude.Result.{Result}
use simb.Prelude.HashMap.{get, get-insert, get-without}
use simb.Interface.{Failures, RequestError}
use simb.Manager.{take_future}
use simb.Network.{Receivers, NetworkManager, handle_command, handle_response_block_headers}
use simb.Network.Swarm.{Libp2p}
use simb.Network.Messages
use simb.Network.Messages.{SwarmEvent, NetworkProviderMessage, QueryResult, peers_reply}
use simb.Network.Events.{
  handle_event, handle_mdns_event, handle_kad_event, handle_request_response_header_event,
  handle_gossipsub_message, answer_closest_peers,
}
use simb.Network.Run.{
  Ended, waiting, Ready, select, run, respond, HeadersReply, poll_get_block_headers,
}
use simb.Network.Run
use simb.Network.Rounds.{Each, handled-Keeps, run-Keeps}

module _ {F : Failures} (net : Libp2p F) where
  abbrev same_query : net.QueryId → net.QueryId → Bool
  same_query = net.query_id_equal.same

  abbrev pub sender_of_query : net.QueryId → NetworkManager net → Option ℕ
  sender_of_query id m = get ⦃eq = net.query_id_equal⦄ id m.pending_get_closest_peers

  -- One round answers the query of an id, or the swarm gives the id to another.
  unfoldable pub concerns : net.QueryId → Ready net → NetworkManager net → Bool
  concerns id
        (Run.event next
          (Messages.kad (Messages.outbound_query_progressed j (Messages.closest_peers ps))))
        m =
      same_query j id
  concerns id
        (Run.event next
          (Messages.kad (Messages.outbound_query_progressed j Messages.closest_peers_timeout)))
        m =
      same_query j id
  concerns id (Run.event next e) m = false
  concerns id (Run.command (some (Messages.get_closest_peers sender))) m =
      same_query (net.get_closest_peers (net.local_peer_id m.swarm) m.swarm).0 id
  concerns id (Run.command c) m = false
  concerns id (Run.response i reply) m = false
  concerns id Run.bootstrap m = false

  -- A step leaves the sender of a query as it was.
  abbrev pub Leaves : net.QueryId → NetworkManager net → NetworkManager net → Type 0
  Leaves id m m' = sender_of_query id m' ≡ sender_of_query id m

  module _ (r : Receivers) (id : net.QueryId) where
    handle_command-Leaves :
        (c : NetworkProviderMessage net) (m : NetworkManager net)
        → concerns id (Run.command (some c)) m ≡ false
        → Leaves id m (handle_command net r c m).1
    unfolding handle_command concerns
    handle_command-Leaves (Messages.get_closest_peers sender) m apart = ground (
      arith,
      apart,
      get-insert ⦃eq = net.query_id_equal⦄
          (net.get_closest_peers (net.local_peer_id m.swarm) m.swarm).0 id sender
          m.pending_get_closest_peers,
    )
    handle_command-Leaves (Messages.broadcast_block_header header tx) m apart = ground arith
    handle_command-Leaves (Messages.broadcast_transactions tx txs) m apart = ground arith
    handle_command-Leaves (Messages.get_headers request) m apart = ground arith
    handle_command-Leaves (Messages.dial peer_id peer_addr tx) m apart = ground arith
    handle_command-Leaves (Messages.listen_addrs tx) m apart = ground arith
    handle_command-Leaves (Messages.start_listening addr tx) m apart = ground arith

    answer_closest_peers-Leaves :
        (j : net.QueryId) (x : Result (RequestError F) (List net.PeerId)) (m : NetworkManager net)
        → same_query j id ≡ false
        → Leaves id m (answer_closest_peers net r j x m).1
    answer_closest_peers-Leaves j x m apart =
        ground (arith, get-without ⦃eq = net.query_id_equal⦄ j id m.pending_get_closest_peers)

    handle_event-Leaves :
        (next : ℕ) (e : SwarmEvent net) (m : NetworkManager net)
        → concerns id (Run.event next e) m ≡ false
        → Leaves id m (handle_event net r next e m).1
    unfolding handle_event handle_mdns_event handle_kad_event handle_request_response_header_event
        handle_gossipsub_message concerns
    handle_event-Leaves next (Messages.mdns (Messages.discovered list)) m apart = refl
    handle_event-Leaves next (Messages.mdns (Messages.expired list)) m apart = refl
    handle_event-Leaves next (Messages.gossipsub_message topic data_bytes) m apart = ground arith
    handle_event-Leaves next
          (Messages.kad (Messages.outbound_query_progressed j (Messages.closest_peers ps))) m
          apart =
        answer_closest_peers-Leaves j _ m apart
    handle_event-Leaves next
          (Messages.kad (Messages.outbound_query_progressed j Messages.closest_peers_timeout)) m
          apart =
        answer_closest_peers-Leaves j _ m apart
    handle_event-Leaves next
          (Messages.kad (Messages.outbound_query_progressed j Messages.other_result)) m apart =
        refl
    handle_event-Leaves next (Messages.kad Messages.other_kad) m apart = refl
    handle_event-Leaves next (Messages.request_response (Messages.request_message q channel)) m
          apart =
        ground arith
    handle_event-Leaves next (Messages.request_response (Messages.response_message j response)) m
          apart =
        ground arith
    handle_event-Leaves next (Messages.request_response (Messages.outbound_failure j error)) m
          apart =
        ground arith
    handle_event-Leaves next (Messages.request_response Messages.inbound_failure) m apart = refl
    handle_event-Leaves next (Messages.request_response Messages.response_sent) m apart = refl
    handle_event-Leaves next (Messages.connection_established peer_id is_dialer) m apart =
        ground arith
    handle_event-Leaves next (Messages.outgoing_connection_error (some peer_id) error) m apart =
        ground arith
    handle_event-Leaves next (Messages.outgoing_connection_error none error) m apart = refl
    handle_event-Leaves next (Messages.new_listen_addr listener_id) m apart = ground arith
    handle_event-Leaves next Messages.other_event m apart = refl

  respond-Leaves :
      (id : net.QueryId) (o : Option (ℕ × List ℕ)) (reply : HeadersReply net)
      (m : NetworkManager net)
      → Leaves id m (respond net o reply m).1
  unfolding handle_response_block_headers
  respond-Leaves id none reply m = refl
  respond-Leaves id (some o) (inl e) m = refl
  respond-Leaves id (some o) (inr response) m = refl

  -- No round of a run concerns the query of an id.
  abbrev pub IsOpen : net.QueryId → List (Receivers × Ready net) → NetworkManager net → Type 0
  IsOpen id = Each net (λ x m. concerns id x m ≡ false)

  module _ (id : net.QueryId) where
    Leaves-refl : (m : NetworkManager net) → Leaves id m m
    Leaves-refl m = refl

    Leaves-trans :
        (m m' m'' : NetworkManager net) → Leaves id m m' → Leaves id m' m'' → Leaves id m m''
    Leaves-trans m m' m'' kept more = more ∙ kept

    select-Leaves :
        (r : Receivers) (x : Ready net) (m : NetworkManager net)
        → concerns id x m ≡ false
        → Leaves id m (select net r x m).1
    unfolding select concerns take_future handle_response_block_headers poll_get_block_headers
    select-Leaves r (Run.event next e) m apart =
        handled-Keeps net (Leaves id) Leaves-refl Leaves-trans m (handle_event net r next e m)
          (handle_event-Leaves r id next e m apart)
    select-Leaves r (Run.command (some c)) m apart =
        handled-Keeps net (Leaves id) Leaves-refl Leaves-trans m (handle_command net r c m)
          (handle_command-Leaves r id c m apart)
    select-Leaves r (Run.command none) m apart = refl
    select-Leaves r (Run.response i reply) m apart =
        let reply' = poll_get_block_headers net reply in
        handled-Keeps net (Leaves id) Leaves-refl Leaves-trans m
          (Run.handle_response net i reply' m)
          (respond-Leaves id (take_future i m.incoming_peer_requests) reply' m)
    select-Leaves r Run.bootstrap m apart = refl

    pub run-open :
        (xs : List (Receivers × Ready net)) (m : NetworkManager net)
        → IsOpen id xs m
        → Leaves id m (run net xs m).1
    run-open = run-Keeps net (Leaves id) Leaves-refl Leaves-trans _ select-Leaves

-- ===== src/Network/Total.antt =====
-- src/net/network.rs: when no handler of `NetworkManager` panics.
use simb.Prelude.{
  ℕ, ◌≡◌, refl, List, [], ◌∷◌, inl, inr, Option, none, some, Bool, true, false, not, ◌&&◌, ◌||◌,
  arith, str_eq,
}
use simb.Prelude.Result.{Result, ok, err, panic}
use simb.Prelude.Exec.{Exec, pure, continue, ◌>>=◌}
use simb.Interface.{Failures}
use simb.Network.{
  Receivers, NetworkManager, handle_command, handle_response_block_headers, send, send_to,
}
use simb.Network.Swarm.{Libp2p}
use simb.Network.Messages
use simb.Network.Messages.{
  block_header, transactions, Reply, SwarmEvent, KadEvent, RequestResponseEvent,
  NetworkProviderMessage,
}
use simb.Network.Events.{
  handle_event, handle_mdns_event, handle_kad_event, handle_request_response_header_event,
  handle_gossipsub_message,
}
use simb.Network.Run.{
  Ended, returned, waiting, Ready, select, run, go_on, respond, handle_response, HeadersReply,
  poll_get_block_headers,
}
use simb.Network.Run

abbrev pub has {ℓ} : {A : Type ℓ} → Option A → Bool
has none = false
has (some a) = true

module _ {F : Failures} (net : Libp2p F) where
  -- A message of one of the two topics can be decoded.
  unfoldable pub readable : Ready net → Bool
  readable (Run.event next (Messages.gossipsub_message topic data_bytes)) =
      (not (str_eq topic (net.topic_hash block_header)) || has (net.decode_header data_bytes))
      && (not (str_eq topic (net.topic_hash transactions))
          || has (net.decode_transactions data_bytes))
  readable (Run.event next e) = true
  readable (Run.command c) = true
  readable (Run.response i reply) = true
  readable Run.bootstrap = true

  -- In every round the receivers are there, and what was gossiped can be read.
  abbrev pub IsSound : List (Receivers × Ready net) → Type 0
  IsSound [] = Unit
  IsSound ((r, x) ∷ rest) =
      (r.chain ≡ true) × ((k : ℕ) → r.awaits k ≡ true) × (readable x ≡ true) × IsSound rest

  abbrev IsOk : Result ⊥ (Unit {0}) × NetworkManager net → Type 0
  IsOk x = x.0 ≡ ok tt

  module _ (r : Receivers) (chain : r.chain ≡ true) (awaits : (k : ℕ) → r.awaits k ≡ true) where
    send-IsOk : (tx : ℕ) (reply : Reply net) (m : NetworkManager net) → IsOk (send net r tx reply m)
    send-IsOk tx reply m = ground (arith, awaits tx)

    send_to-IsOk :
        (o : Option ℕ) (reply : Reply net) (m : NetworkManager net) → IsOk (send_to net r o reply m)
    send_to-IsOk none reply m = refl
    send_to-IsOk (some tx) reply m = send-IsOk tx reply m

    handle_command-IsOk :
        (c : NetworkProviderMessage net) (m : NetworkManager net) → IsOk (handle_command net r c m)
    unfolding handle_command
    handle_command-IsOk (Messages.get_closest_peers sender) m = refl
    handle_command-IsOk (Messages.broadcast_block_header header tx) m = send-IsOk tx _ _
    handle_command-IsOk (Messages.broadcast_transactions tx txs) m = send-IsOk tx _ _
    handle_command-IsOk (Messages.get_headers request) m = refl
    handle_command-IsOk (Messages.dial peer_id peer_addr tx) m = ground (arith, awaits tx)
    handle_command-IsOk (Messages.listen_addrs tx) m = send-IsOk tx _ _
    handle_command-IsOk (Messages.start_listening addr tx) m = ground (arith, awaits tx)

    handle_kad_event-IsOk :
        (e : KadEvent net) (m : NetworkManager net) → IsOk (handle_kad_event net r e m)
    unfolding handle_kad_event
    handle_kad_event-IsOk (Messages.outbound_query_progressed id (Messages.closest_peers ps)) m =
        send_to-IsOk _ _ _
    handle_kad_event-IsOk (Messages.outbound_query_progressed id Messages.closest_peers_timeout) m =
        send_to-IsOk _ _ _
    handle_kad_event-IsOk (Messages.outbound_query_progressed id Messages.other_result) m = refl
    handle_kad_event-IsOk Messages.other_kad m = refl

    handle_request_response_header_event-IsOk :
        (next : ℕ) (e : RequestResponseEvent net) (m : NetworkManager net)
        → IsOk (handle_request_response_header_event net r next e m)
    unfolding handle_request_response_header_event
    handle_request_response_header_event-IsOk next (Messages.request_message q channel) m =
        ground arith
    handle_request_response_header_event-IsOk next (Messages.response_message id response) m =
        send_to-IsOk _ _ _
    handle_request_response_header_event-IsOk next (Messages.outbound_failure id error) m =
        send_to-IsOk _ _ _
    handle_request_response_header_event-IsOk next Messages.inbound_failure m = refl
    handle_request_response_header_event-IsOk next Messages.response_sent m = refl

    handle_event-IsOk :
        (next : ℕ) (e : SwarmEvent net) (m : NetworkManager net)
        → readable (Run.event next e) ≡ true
        → IsOk (handle_event net r next e m)
    unfolding handle_event handle_mdns_event handle_kad_event handle_request_response_header_event
        handle_gossipsub_message readable
    handle_event-IsOk next (Messages.mdns (Messages.discovered list)) m ok_to_read = refl
    handle_event-IsOk next (Messages.mdns (Messages.expired list)) m ok_to_read = refl
    handle_event-IsOk next (Messages.gossipsub_message topic data_bytes) m ok_to_read = ground arith
    handle_event-IsOk next (Messages.kad e) m ok_to_read = handle_kad_event-IsOk e m
    handle_event-IsOk next (Messages.request_response e) m ok_to_read =
        handle_request_response_header_event-IsOk next e m
    handle_event-IsOk next (Messages.connection_established peer_id true) m ok_to_read =
        send_to-IsOk _ _ _
    handle_event-IsOk next (Messages.connection_established peer_id false) m ok_to_read = refl
    handle_event-IsOk next (Messages.outgoing_connection_error (some peer_id) error) m ok_to_read =
        send_to-IsOk _ _ _
    handle_event-IsOk next (Messages.outgoing_connection_error none error) m ok_to_read = refl
    handle_event-IsOk next (Messages.new_listen_addr listener_id) m ok_to_read = send_to-IsOk _ _ _
    handle_event-IsOk next Messages.other_event m ok_to_read = refl

  respond-IsOk :
      (o : Option (ℕ × List ℕ)) (reply : HeadersReply net) (m : NetworkManager net)
      → IsOk (respond net o reply m)
  unfolding handle_response_block_headers
  respond-IsOk none reply m = refl
  respond-IsOk (some o) (inl e) m = refl
  respond-IsOk (some o) (inr response) m = refl

  -- The loop goes on after a handler that ends.
  handled-total :
      (x : Result ⊥ (Unit {0}) × NetworkManager net) (rest : Exec (NetworkManager net) ⊥ Ended)
      → IsOk x
      → ((m : NetworkManager net) → (e : Ended) × ((rest m).0 ≡ ok e))
      → (e : Ended) × (((continue x.0 (λ done. pure waiting) >>= go_on net rest) x.1).0 ≡ ok e)
  handled-total (ok done, m) rest here more = more m
  handled-total (err fault, m) rest here more = elim fault [ ]
  handled-total (panic, m) rest here more = cc

  -- While the receivers of what the manager sends are there and what is gossiped on the two topics
  -- can be decoded, no handler panics, whatever the swarm reports and the calls of it give: the
  -- loop returns or waits.
  pub run-total :
      (xs : List (Receivers × Ready net)) (m : NetworkManager net)
      → IsSound xs
      → (e : Ended) × ((run net xs m).0 ≡ ok e)
  unfolding run select
  run-total [] m sound = (waiting, refl)
  run-total ((r, Run.command none) ∷ rest) m sound = (returned, refl)
  run-total ((r, Run.command (some c)) ∷ rest) m sound =
      handled-total _ (run net rest) (handle_command-IsOk r sound.0 sound.1 c m)
        λ m'. run-total rest m' sound.3
  run-total ((r, Run.event next e) ∷ rest) m sound =
      handled-total _ (run net rest) (handle_event-IsOk r sound.0 sound.1 next e m sound.2)
        λ m'. run-total rest m' sound.3
  run-total ((r, Run.response j reply) ∷ rest) m sound =
      handled-total _ (run net rest) (respond-IsOk _ (poll_get_block_headers net reply) m)
        λ m'. run-total rest m' sound.3
  run-total ((r, Run.bootstrap) ∷ rest) m sound = run-total rest _ sound.3

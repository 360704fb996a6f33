-- ===== src/Network/Answered.antt =====
-- src/net/network.rs: the answer to a request for headers.
use simb.Prelude.{ℕ, ◌≡◌, refl, ◌∙◌, List, [], ◌∷◌, ◌++◌, ◌⊎◌, inl, inr, none, some, true, arith}
use simb.Prelude.Result.{Result, ok, err}
use simb.Prelude.HashMap.{without, get-insert, get-without, without-none, same_refl}
use simb.Interface.{Failures, Header, RequestError, outbound_failure}
use simb.Network.{Receivers, NetworkManager, handle_command}
use simb.Network.Swarm.{Libp2p}
use simb.Network.Messages
use simb.Network.Messages.{GetHeadersRequest, RequestResponseEvent, headers_reply}
use simb.Network.Events.{handle_event, handle_request_response_header_event}
use simb.Network.Run.{Ended, waiting, Ready, select, run}
use simb.Network.Run
use simb.Network.Kept.{request_of, IsApart, run-apart}

module _ {F : Failures} (net : Libp2p F) where
  -- The event that brings the answer, and what the sender gets.
  abbrev pub event_of :
      net.OutboundRequestId → F.OutboundFailure ⊎ List Header → RequestResponseEvent net
  event_of id (inl error) = Messages.outbound_failure id error
  event_of id (inr headers) = Messages.response_message id headers

  abbrev pub reply_of : F.OutboundFailure ⊎ List Header → Result (RequestError F) (List Header)
  reply_of (inl error) = err (outbound_failure error)
  reply_of (inr headers) = ok headers

  -- The round in which the answer to the request of an id comes.
  abbrev pub answered :
      Receivers
      → ℕ
      → net.OutboundRequestId
      → F.OutboundFailure ⊎ List Header
      → NetworkManager net
      → Result ⊥ Ended × NetworkManager net
  answered r next id answer =
      select net r (Run.event next (Messages.request_response (event_of id answer)))

  -- The state once the reply is sent.
  abbrev pub replied :
      net.OutboundRequestId
      → ℕ
      → Result (RequestError F) (List Header)
      → NetworkManager net
      → NetworkManager net
  replied id sender reply m = record m {
    pending_request_headers = without ⦃eq = net.request_id_equal⦄ id m.pending_request_headers;
    outcomes = m.outcomes ++ (sender, some (headers_reply reply)) ∷ [];
  }

  pub first_answer :
      (r : Receivers) (next : ℕ) (id : net.OutboundRequestId)
      (answer : F.OutboundFailure ⊎ List Header) (request : GetHeadersRequest net)
      (m : NetworkManager net)
      → request_of net id m ≡ some request
      → r.awaits request.sender ≡ true
      → answered r next id answer m ≡ (ok waiting, replied id request.sender (reply_of answer) m)
  unfolding select handle_event handle_request_response_header_event
  first_answer r next id (inl error) request m known there = rw (known, there) refl
  first_answer r next id (inr headers) request m known there = rw (known, there) refl

  later_answer :
      (r : Receivers) (next : ℕ) (id : net.OutboundRequestId)
      (answer : F.OutboundFailure ⊎ List Header) (m : NetworkManager net)
      → request_of net id m ≡ none
      → answered r next id answer m ≡ (ok waiting, m)
  unfolding select handle_event handle_request_response_header_event
  later_answer r next id (inl error) m absent =
      rw (absent, without-none ⦃eq = net.request_id_equal⦄ id m.pending_request_headers absent) refl
  later_answer r next id (inr headers) m absent =
      rw (absent, without-none ⦃eq = net.request_id_equal⦄ id m.pending_request_headers absent) refl

  pub asked_for :
      (r : Receivers) (request : GetHeadersRequest net) (m : NetworkManager net)
      → request_of net
          (net.send_request request.peer request.request m.swarm).0
          (handle_command net r (Messages.get_headers request) m).1
        ≡ some request
  unfolding handle_command
  asked_for r request m =
      let id = (net.send_request request.peer request.request m.swarm).0 in
      ground (
        arith,
        get-insert ⦃eq = net.request_id_equal⦄ id id request m.pending_request_headers,
        same_refl ⦃eq = net.request_id_equal⦄ id,
      )

  module _ (request : GetHeadersRequest net) (r : Receivers) (m : NetworkManager net) where
    -- The id that the swarm gives the request, and the state after the command.
    abbrev pub request_id : net.OutboundRequestId
    request_id = (net.send_request request.peer request.request m.swarm).0

    abbrev pub requested : NetworkManager net
    requested = (handle_command net r (Messages.get_headers request) m).1

    -- A request for headers is answered once: after the command, and any rounds in which no answer
    -- with the id of the request comes and the swarm gives that id to no other request, the first
    -- answer with the id, the headers or a failure, is sent on the channel of the request, if its
    -- receiver is there, and changes nothing but the table; a second answer changes nothing.
    pub request_answered :
        (xs : List (Receivers × Ready net)) (r' r'' : Receivers) (next next' : ℕ)
        (answer answer' : F.OutboundFailure ⊎ List Header)
        → IsApart net request_id xs requested
        → r'.awaits request.sender ≡ true
        → (answered r' next request_id answer (run net xs requested).1 ≡ (
          ok waiting,
          replied request_id request.sender (reply_of answer) (run net xs requested).1,
        ))
          × (answered r'' next' request_id answer'
                (replied request_id request.sender (reply_of answer) (run net xs requested).1)
              ≡ (
                ok waiting,
                replied request_id request.sender (reply_of answer) (run net xs requested).1,
              ))
    request_answered xs r' r'' next next' answer answer' apart there =
        let m' = (run net xs requested).1 in
        (
          first_answer r' next request_id answer request m'
              (run-apart net request_id xs requested apart ∙ asked_for r request m) there,
          later_answer r'' next' request_id answer' _ (
              get-without ⦃eq = net.request_id_equal⦄ request_id request_id
                m'.pending_request_headers
              ∙ rw (same_refl ⦃eq = net.request_id_equal⦄ request_id) refl),
        )

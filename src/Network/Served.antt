-- ===== src/Network/Served.antt =====
-- src/net/network.rs and src/net/chain.rs: a request for headers, from the node that asks, through
-- the network and the chain's manager of the node that is asked, and back.
use mathlib.Core.List.Memᴰ.{head}
use mathlib.Core.List.Memᴰ
use simb.Prelude.{
  ℕ, ◌+◌, ◌-◌, ◌≡◌, refl, List, [], ◌∷◌, ◌++◌, min, inr, none, some, ap, ◌∙◌, Bool, true,
}
use simb.Prelude.Result.{ok}
use simb.Interface.{Failures, Header, HeadersRequest}
use simb.BlockTree.Types.{BlockTree}
use simb.BlockTree.View.{View}
use simb.BlockTree.Contract.{Contract}
use simb.SyncHeader.Requests.{blocks}
use simb.Manager.{
  Manager, ChainNetworkEvent, GetBlockHeadersResponse, get_block_headers, on_event, take_future,
}
use simb.Manager.Serving.{handle_get_block_headers_request_lem}
use simb.Network.{Receivers, NetworkManager, handle_response_block_headers}
use simb.Network.Swarm.{Libp2p}
use simb.Network.Messages
use simb.Network.Messages.{GetHeadersRequest, headers_reply}
use simb.Network.Events.{handle_event, handle_request_response_header_event}
use simb.Network.Run.{waiting, Ready, select, run, poll_get_block_headers}
use simb.Network.Run
use simb.Network.Account.{tally}
use simb.Provider.{NetworkProvider, Replies, get_headers, await}
use simb.Provider.Broadcasting.{sent_with_channel, get_headers_lem}
use simb.Provider.Received.{headers_of, received, received-append}
use simb.Network.Awaited.{take_future-mem, IsUntaken, run-untaken}
use simb.Network.Kept.{IsApart}
use simb.Network.Answered.{request_id, requested, answered, replied, request_answered}

module _ {F : Failures} (net : Libp2p F) where
  -- The round in which a request of another node comes.
  abbrev pub incoming : ℕ → HeadersRequest → net.ResponseChannel → Ready net
  incoming respond q channel =
      Run.event respond (Messages.request_response (Messages.request_message q channel))

  -- The state once the chain's manager is told of it.
  abbrev pub told :
      ℕ → HeadersRequest → net.ResponseChannel → NetworkManager net → NetworkManager net
  told respond q channel b = record b {
    events = b.events ++ get_block_headers respond channel q ∷ [];
    incoming_peer_requests = b.incoming_peer_requests ++ respond ∷ [];
  }

  -- The state once the manager's response is sent.
  abbrev pub responded :
      List ℕ → GetBlockHeadersResponse net.ResponseChannel → NetworkManager net → NetworkManager net
  responded others response b = record b {
    swarm = net.send_response response.channel response.headers b.swarm;
    incoming_peer_requests = others;
  }

  request_told :
      (r : Receivers) (respond : ℕ) (q : HeadersRequest) (channel : net.ResponseChannel)
      (b : NetworkManager net)
      → r.chain ≡ true
      → select net r (incoming respond q channel) b ≡ (ok waiting, told respond q channel b)
  unfolding select handle_event handle_request_response_header_event
  request_told r respond q channel b there = rw there refl

  response_sent :
      (r : Receivers) (i respond : ℕ) (others : List ℕ)
      (response : GetBlockHeadersResponse net.ResponseChannel) (b : NetworkManager net)
      → take_future i b.incoming_peer_requests ≡ some (respond, others)
      → select net r (Run.response i (some (inr response))) b
        ≡ (ok waiting, responded others response b)
  unfolding select poll_get_block_headers handle_response_block_headers
  response_sent r i respond others response b awaited = rw awaited refl

  module _ {tree : BlockTree} {checks : Bool} (contract : Contract tree checks) {H P : Type 0} where
    manager_responds :
        (m : Manager tree H P ℕ net.ResponseChannel) (v : View) (respond : ℕ)
        (channel : net.ResponseChannel) (q : HeadersRequest)
        → contract.Shows m.chain v
        → on_event checks (get_block_headers respond channel q) m ≡ (
          ok tt,
          record m {
            responses =
                m.responses
                ++ (
                  respond,
                  record {
                    headers =
                        blocks v.block q.start_block (min q.limit (v.tip + 1 - q.start_block));
                    channel = channel;
                  },
                )
                  ∷ [];
          },
        )
    unfolding on_event
    manager_responds m v respond channel q shown =
        rw (handle_get_block_headers_request_lem contract m.chain v q shown, on_event) refl

    -- A call of `get_headers`, where the network manager is there, sends one command, on a channel
    -- of its own, and ends with the headers of the other node's chain. The node that the request
    -- comes to, whose chain shows a view, if its chain's manager is there, tells that manager of it
    -- once; the manager responds with the headers of its chain from the first number on, as many as
    -- were asked for, or as there are up to the tip; after any rounds in which the response is not
    -- found ready, it is at some place among those that are awaited, and once it is found ready
    -- there, these headers are sent on the channel that the request came with. The node that asked,
    -- after any rounds in which no answer to the request comes and its id is given to no other,
    -- hands these headers, when they come as the answer, to the sender of the request, if its
    -- receiver is there, and the request is out no more; the caller, on whose channel nothing came
    -- before, gets them.
    pub headers_come :
        (peer : net.PeerId) (q : HeadersRequest) (provider : NetworkProvider net)
        (ra ra' rb rb' : Receivers) (a b : NetworkManager net)
        (m : Manager tree H P ℕ net.ResponseChannel) (v : View) (channel : net.ResponseChannel)
        (respond next : ℕ) (xs ys : List (Receivers × Ready net))
        → let request : GetHeadersRequest net = record {
          peer = peer;
          request = q;
          sender = provider.next_channel;
        } in
          contract.Shows m.chain v
          → provider.received ≡ true
          → rb.chain ≡ true
          → IsUntaken net respond ys (told respond q channel b)
          → IsApart net (request_id net request ra a) xs (requested net request ra a)
          → ra'.awaits provider.next_channel ≡ true
          → tally provider.next_channel (run net xs (requested net request ra a)).1.outcomes ≡ 0
          → let id = request_id net request ra a in
            let asking = (run net xs (requested net request ra a)).1 in
            let serving = (run net ys (told respond q channel b)).1 in
            (event : ChainNetworkEvent ℕ net.ResponseChannel) × (response : GetBlockHeadersResponse
              net.ResponseChannel)
            × (i : ℕ) × (others : List ℕ) × ((answers : Replies net (List Header))
                → (get_headers net peer q answers provider).1
                  ≡ sent_with_channel
                      (λ tx.
                        Messages.get_headers (record { peer = peer; request = q; sender = tx }))
                      provider)
            × (select net rb (incoming respond q channel) b ≡ (
              ok waiting,
              record b {
                events = b.events ++ event ∷ [];
                incoming_peer_requests = b.incoming_peer_requests ++ respond ∷ [];
              },
            ))
            × (on_event checks event m
                ≡ (ok tt, record m { responses = m.responses ++ (respond, response) ∷ [] }))
            × (response.channel ≡ channel)
            × (response.headers
                ≡ blocks v.block q.start_block (min q.limit (v.tip + 1 - q.start_block)))
            × (take_future i serving.incoming_peer_requests ≡ some (respond, others))
            × (select net rb' (Run.response i (some (inr response))) serving
                ≡ (ok waiting, responded others response serving))
            × (answered net ra' next id (inr response.headers) asking
                ≡ (ok waiting, replied net id request.sender (ok response.headers) asking))
            × ((get_headers net peer q
                  (received net
                    (headers_of net)
                    (replied net id request.sender (ok response.headers) asking).outcomes)
                  provider).0
                ≡ ok response.headers)
    headers_come peer q provider ra ra' rb rb' a b m v channel respond next xs ys shown receives
          there untaken apart waits fresh =
        let request : GetHeadersRequest net = record {
          peer = peer;
          request = q;
          sender = provider.next_channel;
        } in
        let response : GetBlockHeadersResponse net.ResponseChannel = record {
          headers = blocks v.block q.start_block (min q.limit (v.tip + 1 - q.start_block));
          channel = channel;
        } in
        let answer = inr response.headers in
        let (i, others, awaited) = take_future-mem respond _ (
          run-untaken net respond ys (told respond q channel b) untaken
            (Memᴰ.append_right b.incoming_peer_requests (head refl))) in
        (
          get_block_headers respond channel q,
          response,
          i,
          others,
          λ answers.
              ap (λ call. call.1) (get_headers_lem provider (λ tx. none) receives peer q answers),
          request_told rb respond q channel b there,
          manager_responds m v respond channel q shown,
          refl,
          refl,
          awaited,
          response_sent rb' i respond others response _ awaited,
          (request_answered net request ra a xs ra' ra' next next answer answer apart waits).0,
          ap (λ call. call.0) (get_headers_lem provider (λ tx. none) receives peer q _)
              ∙ ap (await net) (
                  received-append net (headers_of net) _ provider.next_channel
                    (some (headers_reply (ok response.headers))) fresh),
        )

-- ===== src/Network/Panics.antt =====
-- src/net/network.rs: what the answer to a request and a gossiped header do to the loop of
-- `NetworkManager`.
use simb.Prelude.{
  ℕ, ◌≡◌, refl, ap, ◌∙◌, List, [], ◌∷◌, ◌++◌, ◌⊎◌, inl, inr, Option-cases, none, some, Bool, true,
  false, Bool-cases, ◌&&◌, if◌then◌else◌, str_eq_refl, arith,
}
use simb.Prelude.Result.{Result, ok, panic}
use simb.Prelude.Exec.{Exec, continue}
use simb.Interface.{Failures, Header}
use simb.External.{Bytes}
use simb.Network.{Receivers, NetworkManager}
use simb.Network.Swarm.{Libp2p, Codec}
use simb.Network.Messages
use simb.Network.Messages.{GetHeadersRequest, block_header, transactions}
use simb.Network.Events.{
  handle_event, handle_gossipsub_message, handle_request_response_header_event,
}
use simb.Network.Run.{Ended, waiting, Ready, run, select, go_on}
use simb.Network.Run
use simb.Network.Rounds.{run-append}
use simb.Network.Gossip.{hashes_differ}
use simb.Network.Kept.{request_of, IsApart, run-apart}
use simb.Network.Answered.{event_of, answered, first_answer, asked_for, request_id, requested}

if_and :
    (a b : Bool) (x : Result ⊥ Ended)
    → (if a then (if b then x else panic) else panic) ≡ (if a && b then x else panic)
if_and true b x = refl
if_and false b x = refl

one_round :
    {F : Failures} {net : Libp2p F} (x : Result ⊥ Ended × NetworkManager net) (b : Bool)
    (f : Exec (NetworkManager net) ⊥ Ended)
    → x.0 ≡ (if b then ok waiting else panic)
    → (continue x.0 (go_on net f) x.1).0 ≡ (if b then (f x.1).0 else panic)
one_round x true f e = rw e refl
one_round x false f e = rw e refl

module _ {F : Failures} {net : Libp2p F} (codec : Codec net) where
  abbrev pub is_header : Bytes → Bool
  is_header data_bytes = elim (net.decode_header data_bytes) [ none ↦ false | some h ↦ true ]

  late_answer :
      (r : Receivers) (next : ℕ) (m : NetworkManager net) (id : net.OutboundRequestId)
      (request : GetHeadersRequest net) (answer : F.OutboundFailure ⊎ List Header)
      → request_of net id m ≡ some request
      → r.awaits request.sender ≡ false
      → (answered net r next id answer m).0 ≡ panic
  unfolding select handle_event handle_request_response_header_event
  late_answer r next m id request (inl error) known gone = rw (known, gone) refl
  late_answer r next m id request (inr headers) known gone = rw (known, gone) refl

  answer-ends :
      (r : Receivers) (next : ℕ) (m : NetworkManager net) (id : net.OutboundRequestId)
      (request : GetHeadersRequest net) (answer : F.OutboundFailure ⊎ List Header)
      → request_of net id m ≡ some request
      → (answered net r next id answer m).0
        ≡ (if r.awaits request.sender then ok waiting else panic)
  answer-ends r next m id request answer known = elim (Bool-cases (r.awaits request.sender)) [
    | inl there ↦ rw there (ap (λ x. x.0) (first_answer net r next id answer request m known there))
    | inr gone ↦ rw gone (late_answer r next m id request answer known gone)
  ]

  header-ends :
      (r : Receivers) (next : ℕ) (m : NetworkManager net) (data_bytes : Bytes)
      → (select net r
          (Run.event next (Messages.gossipsub_message (net.topic_hash block_header) data_bytes))
          m).0
        ≡ (if r.chain && is_header data_bytes then ok waiting else panic)
  unfolding select handle_event handle_gossipsub_message
  header-ends r next m data_bytes =
      rw (str_eq_refl (net.topic_hash block_header), hashes_differ codec, handle_gossipsub_message)
        (elim (Option-cases (net.decode_header data_bytes)) [
          | inl unreadable ↦ rw unreadable (ground arith)
          | inr (h, e) ↦ rw e (ground arith)
        ])

  module _ (request : GetHeadersRequest net) (r : Receivers) (m : NetworkManager net) where
    -- The two rounds: the answer to the request, and a message on the topic of the headers.
    abbrev pub from_peers :
        (Receivers × ℕ × (F.OutboundFailure ⊎ List Header))
        → (Receivers × ℕ × Bytes)
        → List (Receivers × Ready net)
    from_peers (r', next, answer) (r'', next', data_bytes) =
        (
          r',
          Run.event next
              (Messages.request_response (event_of net (request_id net request r m) answer)),
        )
        ∷ (
          r'',
          Run.event next' (Messages.gossipsub_message (net.topic_hash block_header) data_bytes),
        )
        ∷ []

    ends :
        (r' r'' : Receivers) (next next' : ℕ) (answer : F.OutboundFailure ⊎ List Header)
        (data_bytes : Bytes) (m' : NetworkManager net)
        → request_of net (request_id net request r m) m' ≡ some request
        → (run net (from_peers (r', next, answer) (r'', next', data_bytes)) m').0 ≡ (
            if r'.awaits request.sender && (r''.chain && is_header data_bytes)
            then ok waiting
            else panic)
    unfolding run
    ends r' r'' next next' answer data_bytes m' known =
        let first = answered net r' next (request_id net request r m) answer m' in
        let second =
          select net r''
            (Run.event next' (Messages.gossipsub_message (net.topic_hash block_header) data_bytes))
            first.1 in
        one_round first (r'.awaits request.sender) _
          (answer-ends r' next m' (request_id net request r m) request answer known)
        ∙ ap (λ z. if r'.awaits request.sender then z else panic)
            (one_round second (r''.chain && is_header data_bytes) (run net [])
              (header-ends r'' next' first.1 data_bytes))
        ∙ if_and (r'.awaits request.sender) (r''.chain && is_header data_bytes) (ok waiting)

    -- Two things that a peer may send can end the loop, and end it by a panic. After a request for
    -- headers, and any rounds after which the loop waits and in which no answer to the request
    -- comes and its id is given to no other, the answer to it comes, or its failure, and then a
    -- message on the topic of the headers: the loop goes on, with whatever comes then, exactly if
    -- the receiver of the request is still there, the chain's manager is there, and the message can
    -- be decoded; and panics otherwise, whatever would have come.
    pub peer_panics :
        (xs rest : List (Receivers × Ready net)) (r' r'' : Receivers) (next next' : ℕ)
        (answer : F.OutboundFailure ⊎ List Header) (data_bytes : Bytes)
        → IsApart net (request_id net request r m) xs (requested net request r m)
        → (run net xs (requested net request r m)).0 ≡ ok waiting
        → let before = xs ++ from_peers (r', next, answer) (r'', next', data_bytes) in
          (run net (before ++ rest) (requested net request r m)).0 ≡ (
            if r'.awaits request.sender && (r''.chain && is_header data_bytes)
            then (run net rest (run net before (requested net request r m)).1).0
            else panic)
    peer_panics xs rest r' r'' next next' answer data_bytes apart waits =
        let start = requested net request r m in
        let two = from_peers (r', next, answer) (r'', next', data_bytes) in
        let known =
          run-apart net (request_id net request r m) xs start apart ∙ asked_for net r request m in
        let went : run net (xs ++ two) start ≡ run net two (run net xs start).1 =
          run-append net xs two start
          ∙ ap (λ x. continue x (go_on net (run net two)) (run net xs start).1) waits in
        ap (λ x. x.0) (run-append net (xs ++ two) rest start)
        ∙ one_round (run net (xs ++ two) start) _ (run net rest)
            (ap (λ x. x.0) went ∙ ends r' r'' next next' answer data_bytes _ known)

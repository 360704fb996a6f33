-- ===== src/SyncHeader.antt =====
-- src/tasks/sync_header.rs: the download of a range of headers from one peer, in batches, several
-- at a time. `H` is the type of the provider, `P` that of peer ids. What the network answers, and
-- when, is an argument of `poll`.
pub mod Requests
pub mod Sending
pub mod Answers
pub mod Polls
pub mod Download
pub mod Progress
pub mod Failing
pub mod Short
pub mod Identity
pub mod Agreeing
pub mod Collecting
use simb.Prelude.{
  ℕ, zero, suc, ◌+◌, ◌-◌, ◌<◌, min, List, [], ◌∷◌, ◌++◌, Option, none, some, Bool, true, false,
  length, ltb, is_empty, if◌then◌else◌,
}
use simb.Prelude.Result.{Result, ok, err, panic, expect, ◌>>=◌}
use simb.Interface.{Header, HeadersRequest, Failures, RequestError}

pub record SyncHeaderBuilder (H P : Type 0) : Type 0 where
  pub provider : Option H
  pub peer_id : Option P
  pub local_head_block : ℕ
  pub target_head : ℕ
  pub request_limit : ℕ
  pub max_concurrent_limit : ℕ

pub record SyncHeader (H P : Type 0) : Type 0 where
  pub provider : H
  -- The requests whose answers have not been taken, in the order in which they were sent.
  pub in_progress_queue : List HeadersRequest
  pub queued_headers : List Header
  pub max_concurrent_limit : ℕ
  pub local_head_block : ℕ
  pub request_limit : ℕ
  pub target_head : ℕ
  pub peer_id : P

pub data SyncHeaderError (F : Failures) : Type 0 where
  header_invalid empty_response : SyncHeaderError F
  request_error : RequestError F → SyncHeaderError F

pub data Poll (A : Type 0) : Type 0 where
  ready : A → Poll A
  pending : Poll A

module _ {H P : Type 0} where
  unfoldable pub default : SyncHeaderBuilder H P
  default = record {
    provider = none;
    peer_id = none;
    local_head_block = 0;
    target_head = 0;
    request_limit = 1000;
    max_concurrent_limit = 10;
  }

  abbrev pub with_provider : H → SyncHeaderBuilder H P → SyncHeaderBuilder H P
  with_provider provider b = record b { provider = some provider }

  abbrev pub with_local_head_block : ℕ → SyncHeaderBuilder H P → SyncHeaderBuilder H P
  with_local_head_block block b = record b { local_head_block = block }

  abbrev pub with_target_head : ℕ → SyncHeaderBuilder H P → SyncHeaderBuilder H P
  with_target_head block b = record b { target_head = block }

  abbrev pub with_peer_id : P → SyncHeaderBuilder H P → SyncHeaderBuilder H P
  with_peer_id peer_id b = record b { peer_id = some peer_id }

  abbrev pub with_request_limit : ℕ → SyncHeaderBuilder H P → SyncHeaderBuilder H P
  with_request_limit limit b = record b { request_limit = limit }

  abbrev pub with_max_concurrent_limit : ℕ → SyncHeaderBuilder H P → SyncHeaderBuilder H P
  with_max_concurrent_limit limit b = record b { max_concurrent_limit = limit }

  unfoldable pub build : {E : Type 0} → SyncHeaderBuilder H P → Result E (SyncHeader H P)
  build b = do
    provider ← expect b.provider
    peer_id ← expect b.peer_id
    ok (record {
      provider = provider;
      in_progress_queue = [];
      queued_headers = [];
      max_concurrent_limit = b.max_concurrent_limit;
      local_head_block = b.local_head_block;
      request_limit = b.request_limit;
      target_head = b.target_head;
      peer_id = peer_id;
    })

-- The request at a position of the queue, and the queue without it.
unfoldable pub take_at : ℕ → List HeadersRequest → Option (HeadersRequest × List HeadersRequest)
take_at i [] = none
take_at zero (r ∷ rs) = some (r, rs)
take_at (suc i) (r ∷ rs) = elim (take_at i rs) [ none ↦ none | some (q, qs) ↦ some (q, r ∷ qs) ]

-- What the peer's node sends back for one request.
pub data Response (F : Failures) : Type 0 where
  headers : List Header → Response F
  failed : RequestError F → Response F

-- The peer, as the program meets it: what comes back for a request. No two requests of one
-- download are the same, unless `request_limit` is 0.
abbrev pub Peer : Failures → Type 0
Peer F = HeadersRequest → Response F

abbrev pub Output : Failures → Type 0
Output F = Result (SyncHeaderError F) (List Header)

module _ {H P : Type 0} {F : Failures} where
  unfoldable pub on_header_response :
      List Header → SyncHeader H P → Result (SyncHeaderError F) (SyncHeader H P)
  on_header_response received s =
      if is_empty received
      then err empty_response
      else ok (record s { queued_headers = s.queued_headers ++ received })

  unfoldable pub on_completion :
      Response F → SyncHeader H P → Result (SyncHeaderError F) (SyncHeader H P)
  unfolding on_header_response
  on_completion (headers received) s = on_header_response received s
  on_completion (failed e) s = err (request_error e)

  -- `while let Poll::Ready(Some(headers)) = in_progress_queue.poll_next_unpin(cx)`: the answers
  -- that are there, in the order in which they came, each by the position of its request in the
  -- queue. Where no request stands at the position there is no answer.
  unfoldable pub take_responses :
      Peer F → List ℕ → SyncHeader H P → Result (SyncHeaderError F) (SyncHeader H P)
  unfolding on_completion take_at
  take_responses peer [] s = ok s
  take_responses peer (i ∷ rest) s = elim (take_at i s.in_progress_queue) [
    | none ↦ ok s
    | some (r, queue) ↦ on_completion (peer r) (record s { in_progress_queue = queue }) >>= λ s'.
        take_responses peer rest s'
  ]

module _ {H P : Type 0} where
  abbrev pub next_request : SyncHeader H P → HeadersRequest
  next_request s = record {
    start_block = s.local_head_block + 1;
    limit = min (s.target_head - s.local_head_block) s.request_limit;
  }

  abbrev pub send_request : SyncHeader H P → SyncHeader H P
  send_request s = record s {
    local_head_block = s.local_head_block + (next_request s).limit;
    in_progress_queue = s.in_progress_queue ++ next_request s ∷ [];
  }

  -- `while in_progress_queue.len() < max_concurrent_limit`: each round sends one request, so the
  -- free places are the rounds. The Boolean is `progress`.
  unfoldable pub send_loop : ℕ → SyncHeader H P → Bool → SyncHeader H P × Bool
  send_loop zero s progress = (s, progress)
  send_loop (suc room) s progress = elim (ltb s.local_head_block s.target_head) [
    | true ↦ send_loop room (send_request s) true
    | false ↦ (s, progress)
  ]

  unfoldable pub send_requests : SyncHeader H P → SyncHeader H P × Bool
  send_requests s = send_loop (s.max_concurrent_limit - length s.in_progress_queue) s false

  unfoldable pub finish : {F : Failures} → SyncHeader H P → Poll (Output F) × SyncHeader H P
  finish s = if is_empty s.in_progress_queue then (ready (ok s.queued_headers), s) else (pending, s)

  -- `Future::poll`, by the answers that are there in each round of the outer loop. After the last
  -- of these lists no more come in this call: the round that follows sends what it can, and one
  -- more would neither take nor send anything.
  unfoldable pub poll :
      {F : Failures} → Peer F → List (List ℕ) → SyncHeader H P → Poll (Output F) × SyncHeader H P
  poll peer [] s = finish (send_requests s).0
  poll peer (answers ∷ rest) s = elim (take_responses peer answers s) [
    | ok s' ↦
        let sent = send_requests s' in
        let again = poll peer rest sent.0 in elim sent.1 [ true ↦ again | false ↦ finish sent.0 ]
    | err e ↦ (ready (err e), s)
    | panic ↦ (ready panic, s)
  ]

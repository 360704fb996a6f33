-- ===== src/SyncHeader/Failing.antt =====
-- src/tasks/sync_header.rs: bad answers, and answers that come early.
use simb.Prelude.{ℕ, ◌≤◌, ◌≡◌, refl, ap, ◌∙◌, List, [], ◌∷◌, ◌++◌, some, inl, inr, ◌⊎◌}
use simb.Prelude.Result.{ok, err}
use simb.Interface.{Header, HeadersRequest, Failures, RequestError}
use simb.SyncHeader.{
  SyncHeader, SyncHeaderError, empty_response, request_error, Peer, headers, failed, ready, take_at,
  on_header_response, on_completion, take_responses, poll,
}
use simb.SyncHeader.Requests.{blocks}
use simb.SyncHeader.Sending.{send_requests-full}
use simb.SyncHeader.Answers.{honest}
use simb.SyncHeader.Polls.{taken_state, take_responses-step}
use simb.SyncHeader.Progress.{poll-once, finish-empty}

module _ {H P : Type 0} {F : Failures} where
  take_responses-done : (peer : Peer F) (s : SyncHeader H P) → take_responses peer [] s ≡ ok s
  unfolding take_responses
  take_responses-done peer s = refl

  -- A first answer of a call that fails ends the download with its error, and one without headers
  -- ends it with `EmptyResponse`, whatever else has come or was collected.
  pub bad_answer_lem :
      (peer : Peer F) (i : ℕ) (positions : List ℕ) (answers : List (List ℕ)) (s : SyncHeader H P)
      (r : HeadersRequest) (queue : List HeadersRequest)
      → take_at i s.in_progress_queue ≡ some (r, queue)
      → (error : SyncHeaderError F)
      → ((e : RequestError F) × (peer r ≡ failed e) × (error ≡ request_error e))
        ⊎ ((peer r ≡ headers []) × (error ≡ empty_response))
      → (poll peer ((i ∷ positions) ∷ answers) s).0 ≡ ready (err error)
  unfolding poll take_responses on_completion on_header_response
  bad_answer_lem peer i positions answers s r queue taken error (inl (e, refused, same)) =
      rw (taken, take_responses, poll) (rw (refused, same, poll) refl)
  bad_answer_lem peer i positions answers s r queue taken error (inr (empty, same)) =
      rw (taken, take_responses, poll) (rw (empty, same, poll) refl)

  -- Two requests with positive limits are out, nothing is left to send, and the peer has the range.
  -- When the answer to the second one comes first and the other after it in the same call, the
  -- download is done, and its headers stand before those of the first request.
  pub order_lost :
      (block : ℕ → Header) (s : SyncHeader H P) (r r' : HeadersRequest)
      → s.in_progress_queue ≡ r ∷ r' ∷ []
      → s.target_head ≤ s.local_head_block
      → 1 ≤ r.limit
      → 1 ≤ r'.limit
      → (poll {F = F} (honest block) ((1 ∷ 0 ∷ []) ∷ []) s).0
        ≡ ready (
            ok (
              (s.queued_headers ++ blocks block r'.start_block r'.limit)
              ++ blocks block r.start_block r.limit))
  order_lost block s r r' out reached some_limit some_limit' =
      let first = taken_state block s r' (r ∷ []) in
      let both = taken_state block first r [] in
      let e : take_responses {F = F} (honest block) (1 ∷ 0 ∷ []) s ≡ ok both =
        take_responses-step block s 1 (0 ∷ []) r' (r ∷ [])
          (unfold take_at in rw (out, take_at) refl) some_limit'
        ∙ take_responses-step block first 0 [] r [] (unfold take_at in refl) some_limit
        ∙ take_responses-done (honest block) both in
      ap (λ result. result.0) (poll-once (honest block) (1 ∷ 0 ∷ []) s both e)
      ∙ rw (send_requests-full both (inl reached)) (finish-empty both refl)

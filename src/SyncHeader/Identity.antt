-- ===== src/SyncHeader/Identity.antt =====
-- src/tasks/sync_header.rs: the peer of a download.
use simb.Prelude.{
  ℕ, zero, suc, ◌≡◌, refl, ap, subst, ◌∙◌, List, [], ◌∷◌, Bool, true, false, Bool-cases,
  Option-cases, ltb, inl, inr,
}
use simb.Prelude.Result.{AllOk, AllOk-and_then, Result-cases}
use simb.Interface.{Failures}
use simb.SyncHeader.{
  SyncHeader, Peer, Response, headers, failed, take_at, on_header_response, on_completion,
  take_responses, send_request, send_loop, send_requests, finish, poll,
}
use simb.SyncHeader.Progress.{finish-state}

module _ {H P : Type 0} where
  send_loop-peer_id :
      (room : ℕ) (s : SyncHeader H P) (progress : Bool)
      → (send_loop room s progress).0.peer_id ≡ s.peer_id
  unfolding send_loop
  send_loop-peer_id zero s progress = refl
  send_loop-peer_id (suc room) s progress =
      elim (Bool-cases (ltb s.local_head_block s.target_head)) [
        | inl e ↦ rw (e, send_loop) (send_loop-peer_id room (send_request s) true)
        | inr e ↦ rw (e, send_loop) refl
      ]

  send_requests-peer_id : (s : SyncHeader H P) → (send_requests s).0.peer_id ≡ s.peer_id
  unfolding send_requests
  send_requests-peer_id s = send_loop-peer_id _ s false

  sent-peer_id :
      (F : Failures) (s : SyncHeader H P)
      → (finish {F = F} (send_requests s).0).1.peer_id ≡ s.peer_id
  sent-peer_id F s =
      ap (λ s'. s'.peer_id) (finish-state F (send_requests s).0) ∙ send_requests-peer_id s

module _ {H P : Type 0} {F : Failures} where
  on_completion-peer_id :
      (response : Response F) (s : SyncHeader H P)
      → AllOk (λ s'. s'.peer_id ≡ s.peer_id) (on_completion response s)
  unfolding on_completion on_header_response
  on_completion-peer_id (headers []) s = tt
  on_completion-peer_id (headers (h ∷ hs)) s = refl
  on_completion-peer_id (failed x) s = tt

  take_responses-peer_id :
      (peer : Peer F) (positions : List ℕ) (s : SyncHeader H P)
      → AllOk (λ s'. s'.peer_id ≡ s.peer_id) (take_responses peer positions s)
  unfolding take_responses
  take_responses-peer_id peer [] s = refl
  take_responses-peer_id peer (i ∷ positions) s =
      elim (Option-cases (take_at i s.in_progress_queue)) [
        | inl e ↦ rw (e, take_responses) refl
        | inr ((r, queue), e) ↦
            rw (e, take_responses)
              (AllOk-and_then (λ s'. s'.peer_id ≡ s.peer_id) (λ s'. s'.peer_id ≡ s.peer_id)
                (on_completion (peer r) (record s { in_progress_queue = queue }))
                (take_responses peer positions)
                (on_completion-peer_id (peer r) (record s { in_progress_queue = queue }))
                λ s' same.
                  subst (λ p. AllOk (λ s''. s''.peer_id ≡ p) (take_responses peer positions s'))
                    same (take_responses-peer_id peer positions s'))
      ]

  pub poll-peer_id :
      (peer : Peer F) (answers : List (List ℕ)) (s : SyncHeader H P)
      → (poll peer answers s).1.peer_id ≡ s.peer_id
  unfolding poll
  poll-peer_id peer [] s = sent-peer_id F s
  poll-peer_id peer (positions ∷ answers) s =
      elim (Result-cases (take_responses peer positions s)) [
        | inl (s', e) ↦
            let same : s'.peer_id ≡ s.peer_id =
              subst (AllOk (λ s''. s''.peer_id ≡ s.peer_id)) e
                (take_responses-peer_id peer positions s) in
            rw (e, poll)
              (elim (Bool-cases (send_requests s').1) [
                | inl more ↦
                    rw (more, poll)
                      (poll-peer_id peer answers (send_requests s').0
                        ∙ send_requests-peer_id s'
                        ∙ same)
                | inr no_more ↦ rw (no_more, poll) (sent-peer_id F s' ∙ same)
              ])
        | inr (inl (x, e)) ↦ rw (e, poll) refl
        | inr (inr e) ↦ rw (e, poll) refl
      ]

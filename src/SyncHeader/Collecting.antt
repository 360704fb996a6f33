-- ===== src/SyncHeader/Collecting.antt =====
-- src/tasks/sync_header.rs: what holds of all headers that a peer sends holds of what a download
-- gives.
use simb.Prelude.{
  ℕ, zero, suc, ◌≡◌, refl, inl, inr, List, [], ◌∷◌, Bool, true, false, arith, All, All-append,
  is_empty, Bool-cases, Option-cases, subst,
}
use simb.Prelude.Result.{Result, ok, err, panic, and_then, Result-cases}
use simb.Interface.{Header, HeadersRequest, Failures}
use simb.SyncHeader.{
  SyncHeader, SyncHeaderError, Peer, Response, headers, failed, Poll, ready, pending, Output,
  take_at, send_request, send_loop, send_requests, on_completion, on_header_response,
  take_responses, finish, poll,
}

abbrev pub Answers : {F : Failures} → (Header → Type 0) → Response F → Type 0
Answers Q (headers hs) = All Q hs
Answers Q (failed e) = Unit

abbrev pub Collects : {H P : Type 0} → (Header → Type 0) → SyncHeader H P → Type 0
Collects Q s = All Q s.queued_headers

send_loop-queued :
    {H P : Type 0} (room : ℕ) (s : SyncHeader H P) (progress : Bool)
    → (send_loop room s progress).0.queued_headers ≡ s.queued_headers
unfolding send_loop
send_loop-queued zero s progress = refl
send_loop-queued (suc room) s progress = ground (arith, send_loop-queued room (send_request s) true)

module _ {H P : Type 0} (F : Failures) (Q : Header → Type 0) where
  -- How a call of `poll` may end: it never panics.
  abbrev pub Yields : Poll (Output F) × SyncHeader H P → Type 0
  Yields (ready (ok hs), s) = All Q hs
  Yields (ready (err e), s) = Unit
  Yields (ready panic, s) = ⊥
  Yields (pending, s) = Collects Q s

  abbrev Takes : Result (SyncHeaderError F) (SyncHeader H P) → Type 0
  Takes (ok s) = Collects Q s
  Takes (err e) = Unit
  Takes panic = ⊥

  on_completion-Takes :
      (x : Response F) (s : SyncHeader H P) → Answers Q x → Collects Q s → Takes (on_completion x s)
  unfolding on_completion on_header_response
  on_completion-Takes (headers hs) s answers collected = elim (Bool-cases (is_empty hs)) [
    | inl e ↦ rw e tt
    | inr e ↦ rw e (All-append Q s.queued_headers hs collected answers)
  ]
  on_completion-Takes (failed e) s answers collected = tt

  taken :
      (x : Result (SyncHeaderError F) (SyncHeader H P))
      (f : SyncHeader H P → Result (SyncHeaderError F) (SyncHeader H P))
      → Takes x
      → ((s : SyncHeader H P) → Collects Q s → Takes (f s))
      → Takes (and_then x f)
  taken (ok s) f here more = more s here
  taken (err e) f here more = tt
  taken panic f here more = here

  finish-Yields : (s : SyncHeader H P) → Collects Q s → Yields (finish s)
  unfolding finish
  finish-Yields s collected = elim (Bool-cases (is_empty s.in_progress_queue)) [
    | inl e ↦ rw e collected
    | inr e ↦ rw e collected
  ]

  module _ (peer : Peer F) (answers : (r : HeadersRequest) → Answers Q (peer r)) where
    take_responses-Takes :
        (positions : List ℕ) (s : SyncHeader H P)
        → Collects Q s
        → Takes (take_responses peer positions s)
    unfolding take_responses
    take_responses-Takes [] s collected = collected
    take_responses-Takes (i ∷ rest) s collected =
        elim (Option-cases (take_at i s.in_progress_queue)) [
          | inl e ↦ rw (e, take_responses) collected
          | inr ((r, queue), e) ↦
              rw (e, take_responses)
                (taken (on_completion (peer r) (record s { in_progress_queue = queue }))
                  (take_responses peer rest)
                  (on_completion-Takes (peer r) (record s { in_progress_queue = queue }) (answers r)
                    collected)
                  (take_responses-Takes rest))
        ]

    sent-Collects : (s : SyncHeader H P) → Collects Q s → Collects Q (send_requests s).0
    unfolding send_requests
    sent-Collects s collected = rw (send_loop-queued _ s false) collected

    -- One round: what was taken is sent on, or ends the call.
    pub poll-Yields :
        (found : List (List ℕ)) (s : SyncHeader H P) → Collects Q s → Yields (poll peer found s)
    unfolding poll
    poll-Yields [] s collected = finish-Yields _ (sent-Collects s collected)
    poll-Yields (positions ∷ rest) s collected =
        let takes = take_responses-Takes positions s collected in
        elim (Result-cases (take_responses peer positions s)) [
          | inl (s', e) ↦
              let sent = sent-Collects s' (subst Takes e takes) in
              rw (e, poll)
                (elim (Bool-cases (send_requests s').1) [
                  | inl more ↦ rw (more, poll) (poll-Yields rest (send_requests s').0 sent)
                  | inr no_more ↦ rw (no_more, poll) (finish-Yields (send_requests s').0 sent)
                ])
          | inr (inl (f, e)) ↦ rw (e, poll) tt
          | inr (inr e) ↦ absurd (subst Takes e takes)
        ]

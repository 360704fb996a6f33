-- ===== src/SyncHeader/Agreeing.antt =====
-- src/tasks/sync_header.rs: two peers that a download cannot tell apart.
use simb.Prelude.{
  ℕ, zero, suc, ◌+◌, ◌≤◌, ◌<◌, ◌≡◌, refl, sym, ap, ◌∙◌, inl, inr, List, [], ◌∷◌, Bool, true, false,
  arith, All, All-append, ltb, ltb→lt, is_empty, Bool-cases, Option-cases, subst,
}
use simb.Prelude.Result.{Result, ok, err, panic, and_then, AllOk, AllOk-and_then, Result-cases}
use simb.Interface.{HeadersRequest, Failures}
use simb.SyncHeader.{
  SyncHeaderBuilder, SyncHeader, build, SyncHeaderError, Peer, Response, headers, failed, take_at,
  next_request, send_request, send_loop, send_requests, on_completion, on_header_response,
  take_responses, finish, poll,
}
use simb.SyncHeader.Answers.{take_at-All}
use simb.SyncHeader.Download.{polls, build_lem}

-- A request for headers after one number, up to another.
abbrev pub IsWithin : ℕ → ℕ → HeadersRequest → Type 0
IsWithin start target r = (start < r.start_block) × (r.start_block + r.limit ≤ target + 1)

and_then-agree :
    {E A B : Type 0} (Q : A → Type 0) (m : Result E A) (f g : A → Result E B)
    → AllOk Q m
    → ((a : A) → Q a → f a ≡ g a)
    → and_then m f ≡ and_then m g
and_then-agree Q (ok a) f g holds same = same a holds
and_then-agree Q (err e) f g holds same = refl
and_then-agree Q panic f g holds same = refl

module _ {H P : Type 0} (start target : ℕ) where
  -- The download has asked for nothing but headers in the range.
  abbrev pub IsInside : SyncHeader H P → Type 0
  IsInside s =
      (s.target_head ≡ target)
      × (start ≤ s.local_head_block)
      × All (IsWithin start target) s.in_progress_queue

  send_loop-IsInside :
      (room : ℕ) (s : SyncHeader H P) (progress : Bool)
      → IsInside s
      → IsInside (send_loop room s progress).0
  unfolding send_loop
  send_loop-IsInside zero s progress i = i
  send_loop-IsInside (suc room) s progress i =
      elim (Bool-cases (ltb s.local_head_block s.target_head)) [
        | inl e ↦
            let low = ltb→lt s.local_head_block s.target_head e in
            rw (e, send_loop)
              (send_loop-IsInside room (send_request s) true (
                i.0,
                omega (arith, i.1),
                All-append _ s.in_progress_queue (next_request s ∷ []) i.2
                    ((omega (arith, i.1), omega (arith, i.0, low)), tt),
              ))
        | inr e ↦ rw (e, send_loop) i
      ]

  send_requests-IsInside : (s : SyncHeader H P) → IsInside s → IsInside (send_requests s).0
  unfolding send_requests
  send_requests-IsInside s i = send_loop-IsInside _ s false i

  on_completion-IsInside :
      {F : Failures} (x : Response F) (s : SyncHeader H P)
      → IsInside s
      → AllOk IsInside (on_completion x s)
  unfolding on_completion on_header_response
  on_completion-IsInside (headers hs) s i = elim (Bool-cases (is_empty hs)) [
    | inl e ↦ rw e tt
    | inr e ↦ rw e i
  ]
  on_completion-IsInside (failed f) s i = tt

  finish-IsInside : (F : Failures) (s : SyncHeader H P) → IsInside s → IsInside (finish {F = F} s).1
  unfolding finish
  finish-IsInside F s i = ground arith

  module _ {F : Failures} (p q : Peer F)
      (agree : (r : HeadersRequest)
        → start < r.start_block
        → r.start_block + r.limit ≤ target + 1
        → p r ≡ q r) where
    -- Both peers give the same, and the download stays in the range.
    abbrev Agrees :
        Result (SyncHeaderError F) (SyncHeader H P)
        → Result (SyncHeaderError F) (SyncHeader H P)
        → Type 0
    Agrees x y = (x ≡ y) × AllOk IsInside x

    take_responses_agree :
        (positions : List ℕ) (s : SyncHeader H P)
        → IsInside s
        → Agrees (take_responses p positions s) (take_responses q positions s)
    unfolding take_responses
    take_responses_agree [] s i = (refl, i)
    take_responses_agree (j ∷ positions) s i = elim (Option-cases (take_at j s.in_progress_queue)) [
      | inl e ↦ rw (e, take_responses) (refl, i)
      | inr ((r, rest), e) ↦
          let (within, others) = take_at-All _ j s.in_progress_queue r rest e i.2 in
          let s1 : SyncHeader H P = record s { in_progress_queue = rest } in
          let fine = on_completion-IsInside (p r) s1 (i.0, i.1, others) in
          rw (e, take_responses)
            (
              and_then-agree IsInside (on_completion (p r) s1) (take_responses p positions)
                    (take_responses q positions) fine
                    (λ s' i'. (take_responses_agree positions s' i').0)
                  ∙ ap (λ x. and_then (on_completion x s1) (take_responses q positions))
                      (agree r within.0 within.1),
              AllOk-and_then IsInside IsInside (on_completion (p r) s1) (take_responses p positions)
                  fine (λ s' i'. (take_responses_agree positions s' i').1),
            )
    ]

    poll_agrees :
        (answers : List (List ℕ)) (s : SyncHeader H P)
        → IsInside s
        → (poll p answers s ≡ poll q answers s) × IsInside (poll p answers s).1
    unfolding poll
    poll_agrees [] s i = (refl, finish-IsInside F _ (send_requests-IsInside s i))
    poll_agrees (positions ∷ rest) s i =
        let (same, inside) = take_responses_agree positions s i in
        elim (Result-cases (take_responses p positions s)) [
          | inl (s', e) ↦
              let i' : IsInside s' = subst (λ x. AllOk IsInside x) e inside in
              let sent = send_requests-IsInside s' i' in
              rw (e, sym same ∙ e, poll)
                (elim (Bool-cases (send_requests s').1) [
                  | inl more ↦ rw (more, poll) (poll_agrees rest (send_requests s').0 sent)
                  | inr no_more ↦
                      rw (no_more, poll) (refl, finish-IsInside F (send_requests s').0 sent)
                ])
          | inr (inl (f, e)) ↦ rw (e, sym same ∙ e, poll) (refl, i)
          | inr (inr e) ↦ rw (e, sym same ∙ e, poll) (refl, i)
        ]

    polls_agrees :
        (calls : List (List (List ℕ))) (s : SyncHeader H P)
        → IsInside s
        → polls p calls s ≡ polls q calls s
    unfolding polls
    polls_agrees [] s i = refl
    polls_agrees (answers ∷ calls) s i =
        let (same, inside) = poll_agrees answers s i in
        ground (arith, polls_agrees calls (poll p answers s).1 inside)

-- A download cannot tell two peers apart that answer each request for headers after the local one,
-- and up to the target, in the same way: whatever the calls find, it ends with the same, or goes on
-- in the same state.
pub download_agrees :
    {H P E : Type 0} {F : Failures} (p q : Peer F) (b : SyncHeaderBuilder H P) (s : SyncHeader H P)
    (calls : List (List (List ℕ)))
    → build {E = E} b ≡ ok s
    → ((r : HeadersRequest)
        → b.local_head_block < r.start_block
        → r.start_block + r.limit ≤ b.target_head + 1
        → p r ≡ q r)
    → polls p calls s ≡ polls q calls s
download_agrees {E} p q b s calls e agree =
    let (queue, _, local, target, _, _) = build_lem {E = E} b s e in
    polls_agrees b.local_head_block b.target_head p q agree calls s
      (target, omega (arith, local), rw queue tt)

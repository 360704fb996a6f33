-- ===== src/SyncHeader/Progress.antt =====
-- src/tasks/sync_header.rs: the progress of a download from call to call.
use simb.Prelude.{
  ℕ, zero, suc, ◌+◌, ◌-◌, ◌≤◌, ◌<◌, ◌≡◌, refl, sym, ap, ◌∙◌, ◌⊎◌, inl, inr, List, [], ◌∷◌, arith,
  length, All, is_empty, Bool-cases, le-or-lt, ◌≢◌, replicate, length-replicate, All-replicate,
}
use simb.Prelude.Result.{ok}
use simb.Interface.{Header, Failures}
use simb.SyncHeader.{
  SyncHeaderBuilder, SyncHeader, build, Peer, ready, pending, take_responses, send_requests, finish,
  poll,
}
use simb.SyncHeader.Requests.{blocks, Settings}
use simb.SyncHeader.Sending.{send_requests-Sent, send_requests-full, send_requests_again}
use simb.SyncHeader.Answers.{honest, in_order}
use simb.SyncHeader.Polls.{Holds, take_responses-Holds, sent-Ends}
use simb.SyncHeader.Download.{polls, polls-ready, polls-pending, settings, build_lem, build-Holds}

pending≢ready : {A : Type 0} {x : A} → pending ≢ ready x
pending≢ready e = ground (arith, e)

pub finish-state : {H P : Type 0} (F : Failures) (s : SyncHeader H P) → (finish {F = F} s).1 ≡ s
unfolding finish
finish-state F s = elim (Bool-cases (is_empty s.in_progress_queue)) [
  | inl e ↦ rw (e, finish) refl
  | inr e ↦ rw (e, finish) refl
]

module _ {H P : Type 0} {F : Failures} where
  pub poll-once :
      (peer : Peer F) (answers : List ℕ) (s s' : SyncHeader H P)
      → take_responses peer answers s ≡ ok s'
      → poll peer (answers ∷ []) s ≡ finish (send_requests s').0
  unfolding poll
  poll-once peer answers s s' e =
      rw (e, poll)
        (elim (Bool-cases (send_requests s').1) [
          | inl more ↦ rw (more, poll) (rw (send_requests_again s') refl)
          | inr no_more ↦ rw (no_more, poll) refl
        ])

  pub finish-empty :
      (s : SyncHeader H P)
      → length s.in_progress_queue ≡ 0
      → (finish {F = F} s).0 ≡ ready (ok s.queued_headers)
  unfolding finish
  finish-empty s e = ground arith

  finish-pending :
      (s : SyncHeader H P)
      → length s.in_progress_queue ≡ 0
      → (finish {F = F} (send_requests s).0).0 ≡ pending
      → s.local_head_block < s.target_head
  finish-pending s none_left more = elim (le-or-lt s.target_head s.local_head_block) [
    | inl reached ↦
        let ended : (finish {F = F} (send_requests s).0).0 ≡ ready (ok s.queued_headers) =
          rw (send_requests-full s (inl reached)) (finish-empty s none_left) in
        absurd (pending≢ready (sym more ∙ ended))
    | inr behind ↦ behind
  ]

  -- A call that finds the answers to all that is out ends the download or gets it on.
  polls-step :
      (block : ℕ → Header) (c : Settings) (calls : List (List (List ℕ))) (s : SyncHeader H P)
      → 1 ≤ c.limit
      → 1 ≤ c.places
      → Holds block (in_order block) c s
      → ((polls {F = F} (honest block) ((replicate c.places 0 ∷ []) ∷ calls) s).0
          ≡ ready (ok (blocks block (c.start + 1) (c.target - c.start))))
        ⊎ ((s' : SyncHeader H P) × Holds block (in_order block) c s'
            × (s.local_head_block < s'.local_head_block)
            × (s.local_head_block < c.target)
            × (polls {F = F} (honest block) ((replicate c.places 0 ∷ []) ∷ calls) s
                ≡ polls (honest block) calls s'))
  polls-step block c calls s some_limit some_place h =
      let answers : List ℕ = replicate c.places 0 in
      let zeros : All (λ i. i ≡ 0) answers = All-replicate (λ i. i ≡ 0) c.places 0 refl in
      let (s', e, h', fewer, same) =
        take_responses-Holds block (in_order block) c {F = F} answers s some_limit zeros h in
      let sent = send_requests-Sent s' in
      let once = poll-once (honest block) answers s s' e in
      let none_left : length s'.in_progress_queue ≡ 0 =
        omega (arith, fewer zeros, length-replicate {A = ℕ} c.places 0, h.syncing.places) in
      elim (sent-Ends block (in_order block) c {F = F} s' some_place h') [
        | inl (more, h'') ↦
            let behind = finish-pending s' none_left more in
            inr (
              (finish {F = F} (send_requests s').0).1,
              h'',
              omega (
                arith,
                same,
                behind,
                none_left,
                sent.moved behind (omega (arith, h'.syncing.places_eq))
                    (omega (arith, h'.syncing.limit_eq)),
                ap (λ s'. s'.local_head_block) (finish-state F (send_requests s').0),
              ),
              omega (arith, behind, same, h'.syncing.target_eq),
              polls-pending (honest block) (answers ∷ []) calls s
                    (ap (λ result. result.0) once ∙ more)
                  ∙ ap (λ result. polls (honest block) calls result.1) once,
            )
        | inr (out, done, related) ↦ inl (
            polls-ready (honest block) (answers ∷ []) calls s (ok out)
              (ap (λ result. result.0) once ∙ done)
            ∙ ap (λ bs. ready (ok bs)) related)
      ]

  polls-done :
      (block : ℕ → Header) (c : Settings) (rounds : ℕ) (s : SyncHeader H P)
      → 1 ≤ c.limit
      → 1 ≤ c.places
      → Holds block (in_order block) c s
      → c.target ≤ s.local_head_block + rounds
      → (polls {F = F} (honest block) (replicate (suc rounds) (replicate c.places 0 ∷ [])) s).0
        ≡ ready (ok (blocks block (c.start + 1) (c.target - c.start)))
  unfolding replicate
  polls-done block c zero s some_limit some_place h near =
      elim (polls-step block c [] s some_limit some_place h) [
        | inl done ↦ done
        | inr (s', h', moved, behind, e) ↦ absurd (omega arith)
      ]
  polls-done block c (suc rounds) s some_limit some_place h near =
      elim (polls-step block c (replicate (suc rounds) (replicate c.places 0 ∷ [])) s some_limit
        some_place h) [
          | inl done ↦ done
          | inr (s', h', moved, behind, e) ↦
              ap (λ result. result.0) e
              ∙ polls-done block c rounds s' some_limit some_place h' (omega arith)
        ]

-- A built download polled until it is done, where the peer has the range and each call finds the
-- answers to all requests that are out, in their order: it is done after at most one call more than
-- there are headers to get, and gives exactly the headers after the local one, in order, up to the
-- target. The batch size and the number of places must not be 0.
pub download_done :
    {H P E : Type 0} {F : Failures} (block : ℕ → Header) (b : SyncHeaderBuilder H P)
    (s : SyncHeader H P)
    → build {E = E} b ≡ ok s
    → 1 ≤ b.request_limit
    → 1 ≤ b.max_concurrent_limit
    → (polls {F = F}
        (honest block)
        (replicate
          (suc (b.target_head - b.local_head_block))
          (replicate b.max_concurrent_limit 0 ∷ []))
        s).0
      ≡ ready (ok (blocks block (b.local_head_block + 1) (b.target_head - b.local_head_block)))
download_done {E} {F} block b s e some_limit some_place =
    polls-done block (settings b) (b.target_head - b.local_head_block) s some_limit some_place
      (build-Holds {E = E} block (in_order block) b s e)
      (omega (arith, (build_lem {E = E} b s e).2))

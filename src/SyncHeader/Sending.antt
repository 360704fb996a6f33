-- ===== src/SyncHeader/Sending.antt =====
-- src/tasks/sync_header.rs: one run of the sending loop.
use mathlib.Core.List.{append_assoc, append-nil}
use simb.Prelude.{
  ℕ, zero, suc, ◌+◌, ◌-◌, ◌≤◌, ◌<◌, ◌≡◌, refl, sym, ap, ◌∙◌, ◌⊎◌, inl, inr, List, [], ◌∷◌, ◌++◌,
  Bool, true, false, arith, length, length-append, ltb, ltb→lt, Bool-cases,
}
use simb.Interface.{Header}
use simb.SyncHeader.{SyncHeader, next_request, send_request, send_loop, send_requests}
use simb.SyncHeader.Requests.{blocks, blocks_join, asked, asked-append}

-- What was downloaded and what is asked for, in order.
abbrev pub contents : {H P : Type 0} → (ℕ → Header) → SyncHeader H P → List Header
contents block s = s.queued_headers ++ asked block s.in_progress_queue

-- What a run of the loop with so many free places leaves.
pub record Sent {H P : Type 0} (room : ℕ) (s : SyncHeader H P) (s' : SyncHeader H P) : Type 0 where
  pub queued : s'.queued_headers ≡ s.queued_headers
  pub farther : s.local_head_block ≤ s'.local_head_block
  pub target_eq : s'.target_head ≡ s.target_head
  pub places_eq : s'.max_concurrent_limit ≡ s.max_concurrent_limit
  -- It gets on where there is something to send, a place, and a positive batch size.
  pub moved :
      s.local_head_block < s.target_head
      → 1 ≤ room
      → 1 ≤ s.request_limit
      → s.local_head_block < s'.local_head_block
  -- It stops where the target is reached, or where no place is free.
  pub stopped :
      (s.target_head ≤ s'.local_head_block)
      ⊎ (length s.in_progress_queue + room ≤ length s'.in_progress_queue)
  pub contents_eq :
      (block : ℕ → Header)
      → contents block s'
        ≡ contents block s
          ++ blocks block (s.local_head_block + 1) (s'.local_head_block - s.local_head_block)

send_request-contents :
    {H P : Type 0} (s : SyncHeader H P) (block : ℕ → Header)
    → contents block (send_request s)
      ≡ contents block s ++ blocks block (s.local_head_block + 1) (next_request s).limit
unfolding asked
send_request-contents s block =
    rw (asked-append block s.in_progress_queue (next_request s ∷ []))
      (rw append-nil (sym (append_assoc s.queued_headers (asked block s.in_progress_queue) _)))

Sent-none :
    {H P : Type 0} (room : ℕ) (s : SyncHeader H P)
    → (s.target_head ≤ s.local_head_block) ⊎ (room ≡ 0)
    → Sent room s s
unfolding blocks
Sent-none room s done = record {
  queued = refl;
  farther = omega arith;
  target_eq = refl;
  places_eq = refl;
  moved = λ behind free some_limit. omega arith;
  stopped = omega arith;
  contents_eq = λ block.
      let e : s.local_head_block - s.local_head_block ≡ 0 = omega arith in
      rw e (rw append-nil refl);
}

Sent-more :
    {H P : Type 0} (room : ℕ) (s s' : SyncHeader H P)
    → s.local_head_block < s.target_head
    → Sent room (send_request s) s'
    → Sent (suc room) s s'
Sent-more room s s' behind more = record {
  queued = more.queued;
  farther = omega (arith, more.farther);
  target_eq = more.target_eq;
  places_eq = more.places_eq;
  moved = λ _ free some_limit. omega (arith, more.farther);
  stopped =
      omega (arith, more.stopped, length-append {0} s.in_progress_queue (next_request s ∷ []));
  contents_eq = λ block.
      more.contents_eq block
      ∙ ap
          (λ bs.
            bs
            ++ blocks block ((send_request s).local_head_block + 1)
                (s'.local_head_block - (send_request s).local_head_block))
          (send_request-contents s block)
      ∙ append_assoc (contents block s) _ _
      ∙ ap (λ bs. contents block s ++ bs)
          (blocks_join block (s.local_head_block + 1) (next_request s).limit
            ((send_request s).local_head_block + 1)
            (s'.local_head_block - (send_request s).local_head_block)
            (s'.local_head_block - s.local_head_block) (omega arith) (omega (arith, more.farther)));
}

module _ {H P : Type 0} where
  send_loop-Sent :
      (room : ℕ) (s : SyncHeader H P) (progress : Bool) → Sent room s (send_loop room s progress).0
  unfolding send_loop
  send_loop-Sent zero s progress = Sent-none zero s (inr refl)
  send_loop-Sent (suc room) s progress = elim (Bool-cases (ltb s.local_head_block s.target_head)) [
    | inl e ↦
        rw (e, send_loop)
          (Sent-more room s _ (ltb→lt _ _ e) (send_loop-Sent room (send_request s) true))
    | inr e ↦ rw (e, send_loop) (Sent-none (suc room) s (inl (ground arith)))
  ]

  pub send_requests-Sent :
      (s : SyncHeader H P)
      → Sent (s.max_concurrent_limit - length s.in_progress_queue) s (send_requests s).0
  unfolding send_requests
  send_requests-Sent s =
      send_loop-Sent (s.max_concurrent_limit - length s.in_progress_queue) s false

  send_loop-done :
      (room : ℕ) (s : SyncHeader H P)
      → s.target_head ≤ s.local_head_block
      → send_loop room s false ≡ (s, false)
  unfolding send_loop
  send_loop-done zero s done = refl
  send_loop-done (suc room) s done = ground arith

  pub send_requests-full :
      (s : SyncHeader H P)
      → (s.target_head ≤ s.local_head_block) ⊎ (s.max_concurrent_limit ≤ length s.in_progress_queue)
      → send_requests s ≡ (s, false)
  unfolding send_requests send_loop
  send_requests-full s (inl done) = send_loop-done _ s done
  send_requests-full s (inr full) =
      let e : s.max_concurrent_limit - length s.in_progress_queue ≡ 0 = omega arith in rw e refl

  -- Once the sending loop has run, running it again sends nothing and reports no progress.
  pub send_requests_again :
      (s : SyncHeader H P) → send_requests (send_requests s).0 ≡ ((send_requests s).0, false)
  send_requests_again s =
      let sent = send_requests-Sent s in
      send_requests-full (send_requests s).0
        (omega (arith, sent.stopped, sent.target_eq, sent.places_eq))

  send_loop-true : (room : ℕ) (s : SyncHeader H P) → (send_loop room s true).1 ≡ true
  unfolding send_loop
  send_loop-true zero s = refl
  send_loop-true (suc room) s = ground (arith, send_loop-true room (send_request s))

  send_loop-idle :
      (room : ℕ) (s : SyncHeader H P)
      → (send_loop room s false).1 ≡ false
      → (send_loop room s false).0 ≡ s
  unfolding send_loop
  send_loop-idle zero s e = refl
  send_loop-idle (suc room) s e = ground (arith, send_loop-true room (send_request s))

  -- No progress means that nothing was sent.
  pub send_requests-idle :
      (s : SyncHeader H P) → (send_requests s).1 ≡ false → (send_requests s).0 ≡ s
  unfolding send_requests
  send_requests-idle s e = send_loop-idle (s.max_concurrent_limit - length s.in_progress_queue) s e

-- ===== src/SyncHeader/Polls.antt =====
-- src/tasks/sync_header.rs: `poll` on a download from a peer that has the whole range.
use mathlib.Core.List.{append-nil}
use simb.Prelude.{
  ℕ, zero, suc, ◌+◌, ◌-◌, ◌≤◌, ◌≡◌, refl, ◌∙◌, ◌⊎◌, inl, inr, List, [], ◌∷◌, ◌++◌, some, true,
  false, arith, length, All, is_empty, Bool-cases, Option-cases,
}
use simb.Prelude.Result.{ok}
use simb.Interface.{Header, HeadersRequest, Failures}
use simb.SyncHeader.{
  SyncHeader, Poll, ready, pending, Output, take_at, take_responses, send_requests, finish, poll,
}
use simb.SyncHeader.Requests.{
  blocks, blocks_join, asked, Settings, IsSyncing, send_requests-IsSyncing,
}
use simb.SyncHeader.Sending.{contents, send_requests-Sent}
use simb.SyncHeader.Answers.{honest, Arrivals, take_at-none, take_at-length, take_at-All}

pub blocks-some : (block : ℕ → Header) (n k : ℕ) → 1 ≤ k → is_empty (blocks block n k) ≡ false
unfolding blocks
blocks-some block n zero h = absurd (omega arith)
blocks-some block n (suc k) h = refl

pub empty-length : (queue : List HeadersRequest) → is_empty queue ≡ true → length queue ≡ 0
empty-length [] e = refl
empty-length (r ∷ rs) e = absurd (ground arith)

module _ {H P : Type 0} (block : ℕ → Header) where
  abbrev pub taken_state : SyncHeader H P → HeadersRequest → List HeadersRequest → SyncHeader H P
  taken_state s r rest = record s {
    in_progress_queue = rest;
    queued_headers = s.queued_headers ++ blocks block r.start_block r.limit;
  }

  pub take_responses-step :
      {F : Failures} (s : SyncHeader H P) (i : ℕ) (positions : List ℕ) (r : HeadersRequest)
      (rest : List HeadersRequest)
      → take_at i s.in_progress_queue ≡ some (r, rest)
      → 1 ≤ r.limit
      → take_responses {F = F} (honest block) (i ∷ positions) s
        ≡ take_responses (honest block) positions (taken_state s r rest)
  unfolding take_responses
  take_responses-step s i positions r rest e some_limit =
      rw (e, take_responses) (rw (blocks-some block r.start_block r.limit some_limit) refl)

module _ {H P : Type 0} (block : ℕ → Header) (a : Arrivals block) (c : Settings) where
  -- The download is on its way, and has collected or asked for the range up to where it is.
  pub record Holds (s : SyncHeader H P) : Type 0 where
    pub syncing : IsSyncing c s
    pub collected :
        a.Rel (contents block s) (blocks block (c.start + 1) (s.local_head_block - c.start))

  taken-Holds :
      (i : ℕ) (s : SyncHeader H P) (r : HeadersRequest) (rest : List HeadersRequest)
      → a.allowed i
      → take_at i s.in_progress_queue ≡ some (r, rest)
      → Holds s
      → Holds (taken_state block s r rest)
  taken-Holds i s r rest ok_i e h = record {
    syncing = record {
      target_eq = h.syncing.target_eq;
      limit_eq = h.syncing.limit_eq;
      places_eq = h.syncing.places_eq;
      low = h.syncing.low;
      high = h.syncing.high;
      places = omega (arith, h.syncing.places, take_at-length i s.in_progress_queue r rest e);
      batches = (take_at-All _ i s.in_progress_queue r rest e h.syncing.batches).1;
    };
    collected =
        a.transitive _ _ _ (a.taken i s.in_progress_queue r rest s.queued_headers ok_i e)
          h.collected;
  }

  pub take_responses-Holds :
      {F : Failures} (positions : List ℕ) (s : SyncHeader H P)
      → 1 ≤ c.limit
      → All a.allowed positions
      → Holds s
      → (s' : SyncHeader H P) × (take_responses {F = F} (honest block) positions s ≡ ok s')
        × Holds s'
        × (All (λ i. i ≡ 0) positions
            → length s'.in_progress_queue ≤ length s.in_progress_queue - length positions)
        × (s'.local_head_block ≡ s.local_head_block)
  take_responses-Holds {F} [] s some_limit all h =
      (s, unfold take_responses in refl, h, (λ _. omega arith), refl)
  take_responses-Holds {F} (i ∷ positions) s some_limit all h =
      elim (Option-cases (take_at i s.in_progress_queue)) [
        | inl e ↦ (
          s,
          unfold take_responses in rw (e, take_responses) refl,
          h,
          (λ zeros. omega (arith, take_at-none i s.in_progress_queue zeros.0 e)),
          refl,
        )
        | inr ((r, rest), e) ↦
            let (limits, _) = take_at-All _ i s.in_progress_queue r rest e h.syncing.batches in
            let (s', e', h', fewer, same) =
              take_responses-Holds {F = F} positions (taken_state block s r rest) some_limit all.1
                (taken-Holds i s r rest all.0 e h) in
            (
              s',
              take_responses-step block s i positions r rest e (limits.1 some_limit) ∙ e',
              h',
              (λ zeros.
                  omega (arith, fewer zeros.1, take_at-length i s.in_progress_queue r rest e)),
              same,
            )
      ]

  pub send_requests-Holds : (s : SyncHeader H P) → Holds s → Holds (send_requests s).0
  send_requests-Holds s h =
      let sent = send_requests-Sent s in
      record {
        syncing = send_requests-IsSyncing c s h.syncing;
        collected = rw (sent.contents_eq block) (
            rw
              (← blocks_join block (c.start + 1) (s.local_head_block - c.start)
                (s.local_head_block + 1) ((send_requests s).0.local_head_block - s.local_head_block)
                ((send_requests s).0.local_head_block - c.start) (omega (arith, h.syncing.low))
                (omega (arith, h.syncing.low, sent.farther)))
              (a.append _ _ _ h.collected));
      }

  -- How a call of `poll` ends: the download goes on, or it hands over the range.
  abbrev pub Ends : {F : Failures} → Poll (Output F) × SyncHeader H P → Type 0
  Ends (result, s) =
      ((result ≡ pending) × Holds s)
      ⊎ ((out : List Header) × (result ≡ ready (ok out))
          × a.Rel out (blocks block (c.start + 1) (c.target - c.start)))

  finish-nothing_left :
      (s : SyncHeader H P) (queue : List HeadersRequest)
      → s.in_progress_queue ≡ queue
      → is_empty queue ≡ true
      → contents block s ≡ s.queued_headers
  unfolding asked
  finish-nothing_left s [] e empty = rw (e, asked) (append-nil s.queued_headers)
  finish-nothing_left s (r ∷ rs) e empty = absurd (ground arith)

  -- The download may stop where the target is reached, or where requests are out.
  pub finish-Ends :
      {F : Failures} (s : SyncHeader H P)
      → Holds s
      → (c.target ≤ s.local_head_block) ⊎ (1 ≤ length s.in_progress_queue)
      → Ends {F = F} (finish s)
  unfolding finish
  finish-Ends s h stop = elim (Bool-cases (is_empty s.in_progress_queue)) [
    | inl e ↦
        let reached : s.local_head_block - c.start ≡ c.target - c.start =
          omega (arith, stop, h.syncing.low, h.syncing.high, empty-length s.in_progress_queue e) in
        rw (e, finish)
          (inr (
            s.queued_headers,
            refl,
            rw (← reached) (rw (← finish-nothing_left s s.in_progress_queue refl e) h.collected),
          ))
    | inr e ↦ rw (e, finish) (inl (refl, h))
  ]

  pub sent-Ends :
      {F : Failures} (s : SyncHeader H P)
      → 1 ≤ c.places
      → Holds s
      → Ends {F = F} (finish (send_requests s).0)
  sent-Ends s some_place h =
      let sent = send_requests-Sent s in
      finish-Ends (send_requests s).0 (send_requests-Holds s h) (
        omega (
          arith, sent.stopped, sent.target_eq, h.syncing.target_eq, h.syncing.places_eq,
          h.syncing.places,
        ))

  pub poll-Ends :
      {F : Failures} (answers : List (List ℕ)) (s : SyncHeader H P)
      → 1 ≤ c.limit
      → 1 ≤ c.places
      → All (All a.allowed) answers
      → Holds s
      → Ends {F = F} (poll (honest block) answers s)
  unfolding poll
  poll-Ends [] s some_limit some_place all h = sent-Ends s some_place h
  poll-Ends {F} (positions ∷ rest) s some_limit some_place all h =
      let (s', e, h', _, _) = take_responses-Holds {F = F} positions s some_limit all.0 h in
      rw (e, poll)
        (elim (Bool-cases (send_requests s').1) [
          | inl more ↦
              rw (more, poll)
                (poll-Ends rest (send_requests s').0 some_limit some_place all.1
                  (send_requests-Holds s' h'))
          | inr no_more ↦ rw (no_more, poll) (sent-Ends s' some_place h')
        ])

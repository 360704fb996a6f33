-- ===== src/SyncHeader/Download.antt =====
-- src/tasks/sync_header.rs: a built download, and its future polled again and again.
use mathlib.Core.List.{Perm}
use simb.Prelude.{
  ℕ, ◌+◌, ◌-◌, ◌≤◌, ◌≡◌, refl, ap, ◌∙◌, ◌⊎◌, inl, inr, List, [], ◌∷◌, arith, length, All,
  All-always,
}
use simb.Prelude.Result.{ok}
use simb.Interface.{Header, Failures}
use simb.SyncHeader.{SyncHeaderBuilder, SyncHeader, build, Peer, Poll, ready, pending, Output, poll}
use simb.SyncHeader.Requests.{blocks, asked, Settings}
use simb.SyncHeader.Answers.{honest, Arrivals, in_order, any_order}
use simb.SyncHeader.Polls.{Holds, Ends, poll-Ends}

-- The future polled again and again, each call by the answers that it finds, until it is ready.
unfoldable pub polls :
    {H P : Type 0} {F : Failures}
    → Peer F
    → List (List (List ℕ))
    → SyncHeader H P
    → Poll (Output F) × SyncHeader H P
polls peer [] s = (pending, s)
polls peer (answers ∷ calls) s =
    let result = poll peer answers s in
    elim result.0 [ ready out ↦ result | pending ↦ polls peer calls result.1 ]

module _ {H P : Type 0} where
  pub polls-ready :
      {F : Failures} (peer : Peer F) (answers : List (List ℕ)) (calls : List (List (List ℕ)))
      (s : SyncHeader H P) (out : Output F)
      → (poll peer answers s).0 ≡ ready out
      → (polls peer (answers ∷ calls) s).0 ≡ ready out
  unfolding polls
  polls-ready peer answers calls s out e = ground arith

  pub polls-pending :
      {F : Failures} (peer : Peer F) (answers : List (List ℕ)) (calls : List (List (List ℕ)))
      (s : SyncHeader H P)
      → (poll peer answers s).0 ≡ pending
      → polls peer (answers ∷ calls) s ≡ polls peer calls (poll peer answers s).1
  unfolding polls
  polls-pending peer answers calls s e = ground arith

  pub build_lem :
      {E : Type 0} (b : SyncHeaderBuilder H P) (s : SyncHeader H P)
      → build {E = E} b ≡ ok s
      → (s.in_progress_queue ≡ [])
        × (s.queued_headers ≡ [])
        × (s.local_head_block ≡ b.local_head_block)
        × (s.target_head ≡ b.target_head)
        × (s.request_limit ≡ b.request_limit)
        × (s.max_concurrent_limit ≡ b.max_concurrent_limit)
  unfolding build
  build_lem b s e = ground arith

  abbrev pub settings : SyncHeaderBuilder H P → Settings
  settings b = record {
    start = b.local_head_block;
    target = b.target_head;
    limit = b.request_limit;
    places = b.max_concurrent_limit;
  }

module _ {H P : Type 0} (block : ℕ → Header) (a : Arrivals block) (c : Settings) where
  polls-Ends :
      {F : Failures} (calls : List (List (List ℕ))) (s : SyncHeader H P)
      → 1 ≤ c.limit
      → 1 ≤ c.places
      → All (All (All a.allowed)) calls
      → Holds block a c s
      → Ends block a c {F = F} (polls (honest block) calls s)
  unfolding polls
  polls-Ends [] s some_limit some_place all h = inl (refl, h)
  polls-Ends {F} (answers ∷ calls) s some_limit some_place all h =
      elim (poll-Ends block a c {F = F} answers s some_limit some_place all.0 h) [
        | inl (e, h') ↦ rw (polls-pending (honest block) answers calls s e) (
            polls-Ends calls (poll {F = F} (honest block) answers s).1 some_limit some_place all.1
              h')
        | inr (out, e, related) ↦
            inr (out, polls-ready (honest block) answers calls s (ok out) e, related)
      ]

module _ {H P E : Type 0} (block : ℕ → Header) (a : Arrivals block) where
  pub build-Holds :
      (b : SyncHeaderBuilder H P) (s : SyncHeader H P)
      → build {E = E} b ≡ ok s
      → Holds block a (settings b) s
  unfolding asked blocks
  build-Holds b s e =
      let (queue, queued, local, target, limit, places) = build_lem {E = E} b s e in
      record {
        syncing = record {
          target_eq = target;
          limit_eq = limit;
          places_eq = places;
          low = omega (arith, local);
          high = omega (arith, local);
          places = omega (arith, ap (λ rs. length rs) queue);
          batches = rw queue tt;
        };
        collected =
            let none_yet : s.local_head_block - b.local_head_block ≡ 0 = omega (arith, local) in
            rw (queue, queued, none_yet, asked, blocks) (a.reflexive []);
      }

-- A built download polled any number of times, where the peer has the range and its answers come in
-- the order of the requests: it is not done yet, or it gives exactly the headers after the local
-- one, in order, up to the target. The batch size and the number of places must not be 0.
pub download_in_order :
    {H P E : Type 0} {F : Failures} (block : ℕ → Header) (b : SyncHeaderBuilder H P)
    (s : SyncHeader H P) (calls : List (List (List ℕ)))
    → build {E = E} b ≡ ok s
    → 1 ≤ b.request_limit
    → 1 ≤ b.max_concurrent_limit
    → All (All (All (λ i. i ≡ 0))) calls
    → ((polls {F = F} (honest block) calls s).0 ≡ pending)
      ⊎ ((polls {F = F} (honest block) calls s).0
          ≡ ready (ok (blocks block (b.local_head_block + 1) (b.target_head - b.local_head_block))))
download_in_order {E} {F} block b s calls e some_limit some_place all =
    elim (polls-Ends block (in_order block) (settings b) {F = F} calls s some_limit some_place all
      (build-Holds {E = E} block (in_order block) b s e)) [
        | inl (more, _) ↦ inl more
        | inr (out, done, same) ↦ inr (done ∙ ap (λ bs. ready (ok bs)) same)
      ]

-- A built download polled any number of times, where the peer has the range and its answers come in
-- any order: it is not done yet, or it gives the headers after the local one up to the target, each
-- once, in an order that need not be theirs. The batch size and the number of places must not be 0.
pub download_any_order :
    {H P E : Type 0} {F : Failures} (block : ℕ → Header) (b : SyncHeaderBuilder H P)
    (s : SyncHeader H P) (calls : List (List (List ℕ)))
    → build {E = E} b ≡ ok s
    → 1 ≤ b.request_limit
    → 1 ≤ b.max_concurrent_limit
    → ((polls {F = F} (honest block) calls s).0 ≡ pending)
      ⊎ ((out : List Header) × ((polls {F = F} (honest block) calls s).0 ≡ ready (ok out))
          × Perm out (blocks block (b.local_head_block + 1) (b.target_head - b.local_head_block)))
download_any_order {E} {F} block b s calls e some_limit some_place =
    elim (polls-Ends block (any_order block) (settings b) {F = F} calls s some_limit some_place
      (All-always _ (λ call. All-always _ (λ answers. All-always _ (λ i. tt) answers) call) calls)
      (build-Holds {E = E} block (any_order block) b s e)) [
        | inl (more, _) ↦ inl more
        | inr ended ↦ inr ended
      ]

-- ===== src/Manager/Synced.antt =====
-- src/net/chain.rs: a sync that is woken until it is ready.
use simb.Prelude.{ℕ, ◌≡◌, refl, sym, ap, ◌∙◌, List, [], ◌∷◌, map, some, arith, inl, inr, ◌⊎◌}
use simb.Prelude.Result.{ok}
use simb.Interface.{Failures}
use simb.BlockTree.Types.{BlockTree}
use simb.SyncHeader.{SyncHeader, Peer, Poll, ready, pending, Output, poll as poll_sync}
use simb.SyncHeader.Download.{polls, polls-ready, polls-pending}
use simb.SyncHeader.Identity.{poll-peer_id}
use simb.Manager.{Manager, take_future}
use simb.Manager.Polling.{on_synced, poll_sync_requests}
use simb.Manager.Stuck.{take_future-none}

Poll-cases : {A : Type 0} (r : Poll A) → ((a : A) × (r ≡ ready a)) ⊎ (r ≡ pending)
Poll-cases (ready a) = inl (a, refl)
Poll-cases pending = inr refl

abbrev pub first_sync : List (List ℕ) → ℕ × List (List ℕ)
first_sync answers = (0, answers)

module _ {tree : BlockTree} {H P R C : Type 0} {F : Failures} where
  no_sync_lem :
      (peers : P → Peer F) (calls : List (ℕ × List (List ℕ))) (m : Manager tree H P R C)
      → m.sync_requests ≡ []
      → poll_sync_requests peers calls m ≡ (ok tt, m)
  unfolding poll_sync_requests take_future
  no_sync_lem peers [] m e = refl
  no_sync_lem peers ((i, answers) ∷ calls) m e =
      rw (take_future-none i m.sync_requests e, poll_sync_requests) (no_sync_lem peers calls m e)

  -- The only sync, woken again and again, until it is ready.
  pub wait_lem :
      (peers : P → Peer F) (calls : List (List (List ℕ))) (m : Manager tree H P R C)
      (s : SyncHeader H P) (out : Output F)
      → m.sync_requests ≡ s ∷ []
      → (polls (peers s.peer_id) calls s).0 ≡ ready out
      → (on_synced out (record m { sync_requests = [] })).0 ≡ ok tt
      → (on_synced out (record m { sync_requests = [] })).1.sync_requests ≡ []
      → poll_sync_requests peers (map first_sync calls) m
        ≡ on_synced out (record m { sync_requests = [] })
  unfolding poll_sync_requests take_future polls
  wait_lem peers [] m s out only done fine none_left = ground arith
  wait_lem peers (answers ∷ calls) m s out only done fine none_left =
      let taken : take_future 0 m.sync_requests ≡ some (s, []) = rw (only, take_future) refl in
      elim (Poll-cases (poll_sync (peers s.peer_id) answers s).0) [
        | inl (out', e) ↦
            let same : out' ≡ out =
              ground (arith, done, polls-ready (peers s.peer_id) answers calls s out' e) in
            rw (taken, poll_sync_requests)
              (rw (e, same, poll_sync_requests)
                (rw (fine, poll_sync_requests)
                  (no_sync_lem peers (map first_sync calls) _ none_left
                    ∙ ap (λ r. (r, (on_synced out (record m { sync_requests = [] })).1))
                        (sym fine))))
        | inr e ↦
            let s' = (poll_sync (peers s.peer_id) answers s).1 in
            rw (taken, poll_sync_requests)
              (rw (e, poll_sync_requests)
                (wait_lem peers calls (record m { sync_requests = s' ∷ [] }) s' out refl
                  (rw (poll-peer_id (peers s.peer_id) answers s) (
                    sym (ap (λ r. r.0) (polls-pending (peers s.peer_id) answers calls s e)) ∙ done))
                  fine none_left))
      ]

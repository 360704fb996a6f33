-- ===== src/Manager/Collected.antt =====
-- src/net/chain.rs: the syncs of a node, whatever the peers send.
use simb.Prelude.{
  ℕ, zero, suc, ◌≡◌, refl, sym, inl, inr, List, [], ◌∷◌, ◌++◌, Option, none, some, Bool, false, All,
  All-append, Option-cases, subst,
}
use simb.Prelude.Result
use simb.Prelude.Result.{Result, ok, err, panic}
use simb.Prelude.Exec.{Exec, reads, ◌>>=◌}
use simb.Interface.{Header, HeadersRequest, Failures}
use simb.BlockTree.Types.{
  BlockTree, Error, invalid, block_header_not_found, database_error, AddedBlockResult,
}
use simb.BlockTree.Contract.{Contract}
use simb.SyncHeader.{SyncHeader, Peer, ready, pending, Output, Poll, poll as poll_sync}
use simb.SyncHeader.Collecting.{Answers, Collects, Yields, poll-Yields}
use simb.Manager.{Manager, take_future}
use simb.Manager.Polling.{add_headers, sync_done, on_synced, poll_sync_requests}
use simb.Manager.Rule.{Rule, IsFine}
use simb.Manager.Running.{Runs, Goes, Goes-continue, added-Runs}

-- What holds of all futures holds of the one that is taken, and of the others.
abbrev pub ForTaken : {A : Type 0} → (A → Type 0) → Option (A × List A) → Type 0
ForTaken Q none = Unit
ForTaken Q (some (x, xs)) = Q x × All Q xs

put_back :
    {A : Type 0} (Q : A → Type 0) (x : A) (o : Option (A × List A))
    → Q x
    → ForTaken Q o
    → ForTaken Q (elim o [ none ↦ none | some (y, ys) ↦ some (y, x ∷ ys) ])
put_back Q x none here taken = tt
put_back Q x (some (y, ys)) here taken = (taken.0, (here, taken.1))

pub take_future-All :
    {A : Type 0} (Q : A → Type 0) (n : ℕ) (xs : List A) → All Q xs → ForTaken Q (take_future n xs)
unfolding take_future
take_future-All Q n [] all = tt
take_future-All Q zero (x ∷ xs) all = all
take_future-All Q (suc n) (x ∷ xs) all =
    put_back Q x (take_future n xs) all.0 (take_future-All Q n xs all.1)

module _ {tree : BlockTree} {checks : Bool} (contract : Contract tree checks)
    (rule : Rule tree.genesis checks) {H P R C : Type 0} (F : Failures) where
  rest_added :
      (hs : List Header) (m : Manager tree H P R C) (h : Header) (r : Result Error AddedBlockResult)
      → (tree.try_add_block_header h m.chain).0 ≡ r
      → IsFine r
      → Runs contract rule F (record m { chain = (tree.try_add_block_header h m.chain).1 })
      → Goes contract rule F
          (add_headers hs (record m { chain = (tree.try_add_block_header h m.chain).1 }))
      → Goes contract rule F (add_headers (h ∷ hs) m)
  unfolding add_headers
  rest_added hs m h (ok a) e fine runs more =
      subst (Goes contract rule F)
        {x = add_headers hs (record m { chain = (tree.try_add_block_header h m.chain).1 })}
        (sym (rw (e, add_headers) refl)) more
  rest_added hs m h (err invalid) e fine runs more =
      subst (Goes contract rule F)
        {x = (ok tt, record m { chain = (tree.try_add_block_header h m.chain).1 })}
        (sym (rw (e, add_headers) refl)) runs
  rest_added hs m h (err block_header_not_found) e fine runs more =
      subst (Goes contract rule F)
        {x = (ok tt, record m { chain = (tree.try_add_block_header h m.chain).1 })}
        (sym (rw (e, add_headers) refl)) runs
  rest_added hs m h (err (database_error f)) e fine runs more = absurd fine
  rest_added hs m h panic e fine runs more = absurd fine

  add_headers-Goes :
      (hs : List Header) (m : Manager tree H P R C)
      → All rule.Comes hs
      → Runs contract rule F m
      → Goes contract rule F (add_headers hs m)
  unfolding add_headers
  add_headers-Goes [] m usual i = i
  add_headers-Goes (h ∷ hs) m usual i =
      let (runs, fine) = added-Runs contract rule F m h usual.0 i in
      rest_added hs m h _ refl fine runs (
        add_headers-Goes hs (record m { chain = (tree.try_add_block_header h m.chain).1 }) usual.1
          runs)

  on_synced-Goes :
      (out : Output F) (m : Manager tree H P R C) (s : SyncHeader H P)
      → Yields F rule.Comes (ready out, s)
      → Runs contract rule F m
      → Goes contract rule F (on_synced out m)
  unfolding on_synced
  on_synced-Goes (ok hs) m s usual i =
      Goes-continue contract rule F (add_headers hs m) _ (add_headers-Goes hs m usual i) λ m' i'.
        subst (Goes contract rule F)
          (sym (
            let went : (reads (λ (m'' : Manager tree H P R C). Result.unwrap (tree.tip m''.chain))
                    >>= λ _. sync_done)
                  m'
                ≡ (ok tt, record m' { pending_sync_request = false }) =
              rw (contract.tip_lem m'.chain i'.view i'.shown) refl in
            went))
          (record {
            view = i'.view;
            shown = i'.shown;
            holds = i'.holds;
            collected = i'.collected;
            sent = i'.sent;
            served = i'.served;
          })
  on_synced-Goes (err e) m s usual i = i
  on_synced-Goes panic m s usual i = usual

  abbrev Going : Result ⊥ (Unit {0}) × Manager tree H P R C → Type 0
  Going x = Goes contract rule F x

  woken :
      (m : Manager tree H P R C) (others : List (SyncHeader H P))
      (rest : Exec (Manager tree H P R C) ⊥ (Unit {0})) (r : Poll (Output F) × SyncHeader H P)
      → Yields F rule.Comes r
      → Runs contract rule F (record m { sync_requests = others })
      → ((m' : Manager tree H P R C) → Runs contract rule F m' → Goes contract rule F (rest m'))
      → Going (elim r.0 [
        | pending ↦ rest (record m { sync_requests = others ++ r.1 ∷ [] })
        | ready output ↦ (on_synced output >>= λ _. rest) (record m { sync_requests = others })
      ])
  woken m others rest (pending, s) collected i more =
      more (record m { sync_requests = others ++ s ∷ [] })
        (record {
          view = i.view;
          shown = i.shown;
          holds = i.holds;
          sent = i.sent;
          served = i.served;
          collected = All-append _ others (s ∷ []) i.collected (collected, tt);
        })
  woken m others rest (ready output, s) yields i more =
      Goes-continue contract rule F (on_synced output (record m { sync_requests = others }))
        (λ _. rest) (on_synced-Goes output _ s yields i) more

  pub syncs-Goes :
      (peers : P → Peer F) (syncs : List (ℕ × List (List ℕ))) (m : Manager tree H P R C)
      → ((p : P) (r : HeadersRequest) → Answers rule.Comes (peers p r))
      → Runs contract rule F m
      → Goes contract rule F (poll_sync_requests peers syncs m)
  unfolding poll_sync_requests
  syncs-Goes peers [] m usual i = i
  syncs-Goes peers ((n, answers) ∷ syncs) m usual i =
      elim (Option-cases (take_future n m.sync_requests)) [
        | inl e ↦ rw (e, poll_sync_requests) (syncs-Goes peers syncs m usual i)
        | inr ((s, others), e) ↦
            let Q = λ (s' : SyncHeader H P). Collects rule.Comes s' in
            let (collected, rest) =
              subst (ForTaken Q) e (take_future-All Q n m.sync_requests i.collected) in
            rw (e, poll_sync_requests)
              (woken m others (poll_sync_requests peers syncs)
                (poll_sync (peers s.peer_id) answers s)
                (poll-Yields F rule.Comes (peers s.peer_id) (usual s.peer_id) answers s collected)
                (record {
                  view = i.view;
                  shown = i.shown;
                  holds = i.holds;
                  sent = i.sent;
                  served = i.served;
                  collected = rest;
                })
                λ m' i'. syncs-Goes peers syncs m' usual i')
      ]

-- ===== src/Manager/Polled.antt =====
-- src/net/chain.rs: what holds of a node over all calls of `poll`, by what comes to it.
use simb.Prelude.{
  ℕ, refl, sym, inl, inr, List, [], ◌∷◌, Option, none, some, Bool, All, All-append, Option-cases,
  subst,
}
use simb.Prelude.Result.{Result, ok, err, panic}
use simb.Interface.{Header, HeadersRequest, Failures, RequestError}
use simb.BlockTree.Types.{BlockTree}
use simb.BlockTree.Contract.{Contract}
use simb.SyncHeader.{Peer, build, default}
use simb.SyncHeader.Collecting.{Answers}
use simb.Manager.{Manager, take_future, push_syncers, send_sync_requests}
use simb.Manager.Polling.{
  Ready, on_broadcasted, poll_events, poll_peers, poll_sync_requests, poll_broadcasts, poll,
}
use simb.Manager.Stuck.{polls}
use simb.Manager.Rule.{Announces, Carries, Rule}
use simb.Manager.Running.{Runs, Goes, Goes-continue, poll_events-Goes}
use simb.Manager.Collected.{syncs-Goes, ForTaken, take_future-All}

-- What the request for peers may give.
abbrev pub PeersEnd :
    {F : Failures} {P : Type 0} → Option (Result (RequestError F) (List P)) → Type 0
PeersEnd (some panic) = ⊥
PeersEnd _ = Unit

abbrev pub BroadcastEnd : {F : Failures} → ℕ × Result (RequestError F) (Unit {0}) → Type 0
BroadcastEnd (i, panic) = ⊥
BroadcastEnd _ = Unit

-- A call of `poll` finds announcements of such headers only, and neither the request for peers nor
-- a broadcast has panicked.
abbrev pub IsCall : {F : Failures} {P R C : Type 0} → (Header → Type 0) → Ready F P R C → Type 0
IsCall Q now = All (Announces Q) now.events × PeersEnd now.peers × All BroadcastEnd now.broadcasts

module _ {tree : BlockTree} {checks : Bool} (contract : Contract tree checks)
    (rule : Rule tree.genesis checks) {H P R C : Type 0} (F : Failures) where
  push_syncers-Goes :
      (local header : Header) (peers : List P) (m : Manager tree H P R C)
      → Runs contract rule F m
      → Goes contract rule F (push_syncers local header peers m)
  unfolding push_syncers build default
  push_syncers-Goes local header [] m i = i
  push_syncers-Goes local header (peer ∷ peers) m i =
      push_syncers-Goes local header peers _ (record {
        view = i.view;
        shown = i.shown;
        holds = i.holds;
        sent = i.sent;
        served = i.served;
        collected = All-append _ m.sync_requests _ i.collected (tt, tt);
      })

  send_sync_requests-Goes :
      (header : Header) (peers : List P) (m : Manager tree H P R C)
      → Runs contract rule F m
      → Goes contract rule F (send_sync_requests header peers m)
  unfolding send_sync_requests
  send_sync_requests-Goes header peers m i =
      let tip : Header = i.view.block i.view.tip in
      subst (Goes contract rule F) {x = push_syncers tip header peers m}
        (sym (rw (contract.tip_lem m.chain i.view i.shown) refl))
        (push_syncers-Goes tip header peers m i)

  idle-Runs :
      (m : Manager tree H P R C)
      → Runs contract rule F m
      → Runs contract rule F (record m { closest_peers_request_for_sync = none })
  idle-Runs m i = record {
    view = i.view;
    shown = i.shown;
    holds = i.holds;
    sent = i.sent;
    served = i.served;
    collected = i.collected;
  }

  peers-Goes :
      (outcome : Option (Result (RequestError F) (List P))) (m : Manager tree H P R C)
      → PeersEnd outcome
      → Runs contract rule F m
      → Goes contract rule F (poll_peers outcome m)
  unfolding poll_peers
  peers-Goes none m ended i = elim (Option-cases m.closest_peers_request_for_sync) [
    | inl e ↦ rw (e, poll_peers) i
    | inr (header, e) ↦ rw (e, poll_peers) i
  ]
  peers-Goes (some (ok peers)) m ended i = elim (Option-cases m.closest_peers_request_for_sync) [
    | inl e ↦ rw (e, poll_peers) i
    | inr (header, e) ↦ rw (e, poll_peers) (send_sync_requests-Goes header peers _ (idle-Runs m i))
  ]
  peers-Goes (some (err f)) m ended i = elim (Option-cases m.closest_peers_request_for_sync) [
    | inl e ↦ rw (e, poll_peers) i
    | inr (header, e) ↦ rw (e, poll_peers) (idle-Runs m i)
  ]
  peers-Goes (some panic) m ended i = absurd ended

  on_broadcasted-Goes :
      (i : ℕ) (res : Result (RequestError F) (Unit {0})) (m : Manager tree H P R C)
      → BroadcastEnd (i, res)
      → Runs contract rule F m
      → Goes contract rule F (on_broadcasted res m)
  on_broadcasted-Goes i (ok done) m fine runs = runs
  on_broadcasted-Goes i (err e) m fine runs = runs
  on_broadcasted-Goes i panic m fine runs = absurd fine

  broadcasts-Goes :
      (ended : List (ℕ × Result (RequestError F) (Unit {0}))) (m : Manager tree H P R C)
      → All BroadcastEnd ended
      → Runs contract rule F m
      → Goes contract rule F (poll_broadcasts ended m)
  unfolding poll_broadcasts
  broadcasts-Goes [] m fine i = i
  broadcasts-Goes ((n, res) ∷ ended) m fine i =
      elim (Option-cases (take_future n m.broadcast_requests)) [
        | inl e ↦ rw (e, poll_broadcasts) (broadcasts-Goes ended m fine.1 i)
        | inr ((b, others), e) ↦
            let (_, rest) =
              subst (ForTaken (Carries rule.Leaves)) e
                (take_future-All (Carries rule.Leaves) n m.broadcast_requests i.sent) in
            rw (e, poll_broadcasts)
              (Goes-continue contract rule F
                (on_broadcasted res (record m { broadcast_requests = others })) _
                (on_broadcasted-Goes n res (record m { broadcast_requests = others }) fine.0
                  (record {
                    view = i.view;
                    shown = i.shown;
                    holds = i.holds;
                    collected = i.collected;
                    sent = rest;
                    served = i.served;
                  }))
                λ m' i'. broadcasts-Goes ended m' fine.1 i')
      ]

  pub poll-Goes :
      (peers : P → Peer F) (now : Ready F P R C) (m : Manager tree H P R C)
      → ((p : P) (r : HeadersRequest) → Answers rule.Comes (peers p r))
      → IsCall rule.Comes now
      → Runs contract rule F m
      → Goes contract rule F (poll checks peers now m)
  unfolding poll
  poll-Goes peers now m usual here i =
      Goes-continue contract rule F (poll_events checks now.events m) _
        (poll_events-Goes contract rule F now.events m here.0 i)
        λ m1 i1.
          Goes-continue contract rule F (poll_peers now.peers m1) _
            (peers-Goes now.peers m1 here.1 i1)
            λ m2 i2.
              Goes-continue contract rule F (poll_sync_requests peers now.syncs m2) _
                (syncs-Goes contract rule F peers now.syncs m2 usual i2)
                λ m3 i3. broadcasts-Goes now.broadcasts m3 here.2 i3

  pub polls-Goes :
      (peers : P → Peer F) (calls : List (Ready F P R C)) (m : Manager tree H P R C)
      → ((p : P) (r : HeadersRequest) → Answers rule.Comes (peers p r))
      → All (IsCall rule.Comes) calls
      → Runs contract rule F m
      → Goes contract rule F (polls checks peers calls m)
  unfolding polls
  polls-Goes peers [] m usual all i = i
  polls-Goes peers (now ∷ calls) m usual all i =
      Goes-continue contract rule F (poll checks peers now m) _
        (poll-Goes peers now m usual all.0 i) λ m' i'. polls-Goes peers calls m' usual all.1 i'

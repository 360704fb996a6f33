-- ===== src/Manager/Running.antt =====
-- src/net/chain.rs: what holds of a node over all calls of `poll`, whatever the network sends.
use simb.Prelude.{◌≡◌, refl, sym, List, [], ◌∷◌, Bool, arith, All, All-append, subst}
use simb.Prelude.Result.{Result, ok, err, panic}
use simb.Prelude.Exec.{Exec, continue}
use simb.Interface.{Header, Failures}
use simb.BlockTree.Types.{
  BlockTree, Error, invalid, block_header_not_found, database_error, AddedBlockResult, extend_tip,
  already_in_chain,
}
use simb.BlockTree.View.{View, add}
use simb.BlockTree.Contract.{Contract}
use simb.SyncHeader.{SyncHeader}
use simb.SyncHeader.Collecting.{Collects}
use simb.Manager.{
  ChainNetworkEvent, incoming_new_block_header, incoming_transactions, get_block_headers, Manager,
  on_added, on_event, announce, request_peers,
}
use simb.Manager.Announced.{same_chain}
use simb.Manager.Serving.{handle_get_block_headers_request_lem}
use simb.Manager.Polling.{poll_events}
use simb.Manager.Rule.{
  IsFine, add-IsFine, Rule, Announces, Carries, Answered, blocks-All, same_syncs, same_responses,
  announce-broadcasts, request_peers-broadcasts,
}

module _ {tree : BlockTree} {checks : Bool} (contract : Contract tree checks)
    (rule : Rule tree.genesis checks) {H P R C : Type 0} (F : Failures) where
  -- The chain shows a view that keeps to the rule, and so do the headers that the downloads hold,
  -- and those that were sent.
  pub record Runs (m : Manager tree H P R C) : Type 0 where
    pub view : View
    pub shown : contract.Shows m.chain view
    pub holds : rule.Holds view
    pub collected : All (λ (s : SyncHeader H P). Collects rule.Comes s) m.sync_requests
    pub sent : All (Carries rule.Leaves) m.broadcast_requests
    pub served : All (Answered rule.Leaves) m.responses

  abbrev pub Goes : Result ⊥ (Unit {0}) × Manager tree H P R C → Type 0
  Goes (ok done, m) = Runs m
  Goes (err e, m) = ⊥
  Goes (panic, m) = ⊥

  pub Goes-continue :
      (x : Result ⊥ (Unit {0}) × Manager tree H P R C)
      (f : Unit {0} → Exec (Manager tree H P R C) ⊥ (Unit {0}))
      → Goes x
      → ((m : Manager tree H P R C) → Runs m → Goes (f tt m))
      → Goes (continue x.0 f x.1)
  Goes-continue (ok tt, m) f here more = more m here
  Goes-continue (err e, m) f here more = here
  Goes-continue (panic, m) f here more = here

  -- A header that is added leaves the chain in order.
  pub added-Runs :
      (m : Manager tree H P R C) (h : Header)
      → rule.Comes h
      → Runs m
      → Runs (record m { chain = (tree.try_add_block_header h m.chain).1 })
        × IsFine (tree.try_add_block_header h m.chain).0
  added-Runs m h comes i =
      let usual = rule.Comes-IsUsual h comes in
      let (result, shown) = contract.add_lem m.chain i.view h i.shown usual.1 in
      (
        record {
          view = (add tree.genesis checks i.view h).1;
          shown = shown;
          holds =
              rule.Holds-add i.view h (contract.Shows-IsNumbered m.chain i.view i.shown) i.holds
                comes;
          collected = i.collected;
          sent = i.sent;
          served = i.served;
        },
        rw result (add-IsFine tree.genesis checks i.view h usual),
      )

  on_added-Goes :
      (h : Header) (r : Result Error AddedBlockResult) (m : Manager tree H P R C)
      → rule.Leaves h
      → IsFine r
      → Runs m
      → Goes (on_added h r m)
  unfolding on_added
  on_added-Goes h (ok extend_tip) m leaves fine i = record {
    view = i.view;
    shown = i.shown;
    holds = i.holds;
    collected = i.collected;
    sent = All-append (Carries rule.Leaves) m.broadcast_requests _ i.sent (leaves, tt);
    served = i.served;
  }
  on_added-Goes h (ok already_in_chain) m leaves fine i = i
  on_added-Goes h (err block_header_not_found) m leaves fine i =
      let went : on_added h (err block_header_not_found) m
          ≡ (ok tt, request_peers h (announce h m)) =
        rw (contract.tip_lem m.chain i.view i.shown, on_added) refl in
      subst Goes (sym went) (record {
        view = i.view;
        shown = subst (λ c. contract.Shows c i.view) (sym (same_chain h m)) i.shown;
        holds = i.holds;
        collected =
            subst (λ ss. All (λ (s : SyncHeader H P). Collects rule.Comes s) ss)
              (sym (same_syncs h m)) i.collected;
        sent =
            subst (λ bs. All (Carries rule.Leaves) bs)
              (sym (request_peers-broadcasts h (announce h m)))
              (announce-broadcasts h m rule.Leaves leaves i.sent);
        served = subst (λ rs. All (Answered rule.Leaves) rs) (sym (same_responses h m)) i.served;
      })
  on_added-Goes h (err invalid) m leaves fine i = i
  on_added-Goes h (err (database_error e)) m leaves fine i = fine
  on_added-Goes h panic m leaves fine i = fine

  on_event-Goes :
      (event : ChainNetworkEvent R C) (m : Manager tree H P R C)
      → Announces rule.Comes event
      → Runs m
      → Goes (on_event checks event m)
  unfolding on_event
  on_event-Goes (incoming_new_block_header h) m comes i =
      let (runs, fine) = added-Runs m h comes i in
      on_added-Goes h _ _ (rule.Comes-Leaves h comes) fine runs
  on_event-Goes (incoming_transactions ts) m comes i = record {
    view = i.view;
    shown = i.shown;
    holds = i.holds;
    collected = i.collected;
    sent = All-append (Carries rule.Leaves) m.broadcast_requests _ i.sent (tt, tt);
    served = i.served;
  }
  on_event-Goes (get_block_headers respond channel request) m comes i =
      let numbering = contract.Shows-IsNumbered m.chain i.view i.shown in
      rw (handle_get_block_headers_request_lem contract m.chain i.view request i.shown, on_event)
        (record {
          view = i.view;
          shown = i.shown;
          holds = i.holds;
          collected = i.collected;
          sent = i.sent;
          served = All-append (Answered rule.Leaves) m.responses _ i.served (
            blocks-All rule.Leaves i.view.block request.start_block _
                (λ n low high. rule.Holds-Leaves i.view n numbering i.holds (omega arith)),
            tt,
          );
        })

  pub poll_events-Goes :
      (events : List (ChainNetworkEvent R C)) (m : Manager tree H P R C)
      → All (Announces rule.Comes) events
      → Runs m
      → Goes (poll_events checks events m)
  unfolding poll_events
  poll_events-Goes [] m comes i = i
  poll_events-Goes (event ∷ events) m comes i =
      Goes-continue (on_event checks event m) (λ _. poll_events checks events)
        (on_event-Goes event m comes.0 i) λ m'. poll_events-Goes events m' comes.1

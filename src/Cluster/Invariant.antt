-- ===== src/Cluster/Invariant.antt =====
-- What holds of all that can come about among nodes one of which mines.
use simb.Prelude.{
  All-Memᴰ, ℕ, suc, ◌+◌, ◌≤◌, ◌<◌, ◌≡◌, refl, ◌∙◌, ap, inl, inr, [], false, Bool-cases, arith, All,
  All-append, All-map, subst, ◌==◌, if◌then◌else◌,
}
use simb.Prelude.Result.{ok}
use simb.Interface.{Header, HeadersRequest, Failures}
use simb.External.{System, Bytes, u64_mod}
use simb.BlockTree.Types.{BlockTree}
use simb.BlockTree.Contract.{Contract}
use simb.BlockTree.Links.{IsLinked}
use simb.BlockTree.Mining.{mine_block, mined_header}
use simb.BlockTree.Mined.{mine_block_lem}
use simb.BlockTree.Ticking.{put_next-IsLinked, tip-put_next}
use simb.BlockTree.Opened.{genesis_view}
use simb.BlockTree.View.{View, put}
use simb.Pool.{Pool}
use simb.SyncHeader.{Peer}
use simb.SyncHeader.Collecting.{Answers}
use simb.Manager
use simb.Manager.{Manager}
use simb.Manager.Polling.{Ready, poll}
use simb.Manager.Running.{Runs}
use simb.Manager.Polled.{IsCall, poll-Goes}
use simb.Cluster.{
  Cluster, InFlight, update, Reach, start, mines, polls, restarts, after_poll, after_mining,
  after_restart,
}
use simb.Cluster.OnChain.{
  IsOnChain, IsPrefix, IsChain, chain_rule, IsOnChain-put, IsOnChain-top, IsPrefix-put,
  put-IsPrefix, put-IsChain,
}
use simb.Cluster.Promises.{Answers-map, IsCall-map, Runs-map, Goes-Runs, outgoing-All}

update-each :
    {A : Type 0} (Q : ℕ → A → Type 0) (f : ℕ → A) (i : ℕ) (x : A) (j : ℕ)
    → Q i x
    → ((j == i) ≡ false → Q j (f j))
    → Q j (update f i x j)
update-each Q f i x j here there = elim (Bool-cases (j == i)) [
  | inl e ↦ rw e (subst (λ k. Q k x) {x = i} {y = j} (ground arith) here)
  | inr e ↦ rw e (there e)
]

-- Node 0 shows the whole chain, the others some of it.
abbrev pub floor : View → ℕ → ℕ
floor main i = if i == 0 then main.tip else 0

module _ (sys : System) {tree : BlockTree} (contract : Contract tree sys.overflow_checks)
    (F : Failures) {H P R C : Type 0} where
  -- A node whose chain is the start of a chain, as far as a number or farther.
  abbrev pub Keeps : {main : View} → IsChain tree.genesis main → ℕ → Manager tree H P R C → Type 0
  Keeps chain low m = Runs contract (chain_rule sys.overflow_checks low chain) F m

  -- There is one chain, of so many headers above the genesis header, that all nodes show the start
  -- of, node 0 the whole of it; what is in flight belongs to it.
  pub record Agrees (n : ℕ) (c : Cluster tree H P R C) : Type 0 where
    pub main : View
    pub chain : IsChain tree.genesis main
    pub linked : IsLinked main
    pub tip : main.tip ≡ n
    pub runs : (i : ℕ) → Keeps chain (floor main i) (c.nodes i)
    pub in_flight : All (IsOnChain main) c.sent

  new-Keeps :
      {main : View} (chain : IsChain tree.genesis main) (low : ℕ) (self : tree.Self) (v : View)
      (pool : Pool) (provider : H)
      → contract.Shows self v
      → IsPrefix v main
      → low ≤ v.tip
      → Keeps chain low (Manager.new self pool provider)
  unfolding Manager.new
  new-Keeps chain low self v pool provider shown prefix up = record {
    view = v;
    shown = shown;
    holds = (prefix, up);
    collected = tt;
    sent = tt;
    served = tt;
  }

  start-Agrees :
      (chains : ℕ → tree.Self) (pools : ℕ → Pool) (providers : ℕ → H)
      → ((i : ℕ) → contract.Shows (chains i) (genesis_view tree.genesis))
      → Agrees 0 (record { nodes = λ i. Manager.new (chains i) (pools i) (providers i); sent = [] })
  start-Agrees chains pools providers shown =
      let g = genesis_view tree.genesis in
      let chain : IsChain tree.genesis g = record {
        zero = contract.genesis_number;
        first = refl;
        fits = omega arith;
      } in
      let prefix : IsPrefix g g = record { low = omega arith; same = λ n below. refl } in
      let each : (i : ℕ)
          → Keeps chain (floor g i) (Manager.new (chains i) (pools i) (providers i)) =
        λ i.
          new-Keeps chain (floor g i) (chains i) g (pools i) (providers i) (shown i) prefix
            (ground arith) in
      record {
        main = g;
        chain = chain;
        linked = λ n below. absurd (omega arith);
        tip = refl;
        runs = each;
        in_flight = tt;
      }

  restart-Agrees :
      (n : ℕ) (c : Cluster tree H P R C) (i : ℕ) (pool : Pool) (provider : H)
      → Agrees n c
      → Agrees n (after_restart i pool provider c)
  restart-Agrees n c i pool provider a =
      let r = a.runs i in
      let again : Keeps a.chain (floor a.main i) (Manager.new (c.nodes i).chain pool provider) =
        new-Keeps a.chain (floor a.main i) (c.nodes i).chain r.view pool provider r.shown r.holds.0
          r.holds.1 in
      record {
        main = a.main;
        chain = a.chain;
        linked = a.linked;
        tip = a.tip;
        runs = λ j.
            update-each (λ k. Keeps a.chain (floor a.main k)) c.nodes i _ j again
              (λ apart. a.runs j);
        in_flight = a.in_flight;
      }

  pub poll-Agrees :
      (n : ℕ) (c : Cluster tree H P R C) (i : ℕ) (peers : P → Peer F) (now : Ready F P R C)
      → IsCall (InFlight c.sent) now
      → ((p : P) (r : HeadersRequest) → Answers (InFlight c.sent) (peers p r))
      → Agrees n c
      → ((poll sys.overflow_checks peers now (c.nodes i)).0 ≡ ok tt)
        × Agrees n (after_poll sys.overflow_checks i peers now c)
  poll-Agrees n c i peers now call answers a =
      let rule = chain_rule sys.overflow_checks (floor a.main i) a.chain in
      let known : (h : Header) → InFlight c.sent h → IsOnChain a.main h =
        λ h there. All-Memᴰ (IsOnChain a.main) h c.sent a.in_flight there in
      let polled : (x : Ready F P R C)
          → IsCall (InFlight c.sent) x
          → (((poll sys.overflow_checks peers x (c.nodes i)).0 ≡ ok tt)
              × Runs contract rule F (poll sys.overflow_checks peers x (c.nodes i)).1) =
        λ x here. Goes-Runs contract F rule (poll sys.overflow_checks peers x (c.nodes i)) (
          poll-Goes contract rule F peers x (c.nodes i)
            (λ p r. Answers-map _ _ known (peers p r) (answers p r)) (IsCall-map _ _ known x here)
            (a.runs i)) in
      let (went, next) = polled now call in
      (
        went,
        record {
          main = a.main;
          chain = a.chain;
          linked = a.linked;
          tip = a.tip;
          runs = λ j.
              update-each (λ k. Keeps a.chain (floor a.main k)) c.nodes i _ j next
                (λ apart. a.runs j);
          in_flight = All-append (IsOnChain a.main) c.sent _ a.in_flight (
              outgoing-All contract F rule _
                (polled (record now { broadcasts = [] }) (call.0, call.1, tt)).1);
        },
      )

  -- A node whose chain is the start of one is so when a header is put on it.
  further :
      (main : View) (chain : IsChain tree.genesis main) (h : Header) (above : main.tip < h.number)
      (chain' : IsChain tree.genesis (put main h)) (low : ℕ) (m : Manager tree H P R C)
      → Keeps chain low m
      → Keeps chain' 0 m
  further main chain h above chain' low m i =
      let known = IsOnChain-put main h above in
      Runs-map contract F (chain_rule sys.overflow_checks low chain)
        (chain_rule sys.overflow_checks 0 chain') m i known known
        λ holds. (IsPrefix-put main h above i.view holds.0, omega arith)

  mine-Agrees :
      (n : ℕ) (c : Cluster tree H P R C) (now : ℕ) (random_bytes : Bytes) (random : ℕ)
      → n + 2 < u64_mod
      → Agrees n c
      → Agrees (suc n) (after_mining sys now random_bytes random c)
  mine-Agrees n c now random_bytes random fits a =
      let r = a.runs 0 in
      let v = r.view in
      let prefix = r.holds.0 in
      let level : v.tip ≡ a.main.tip = omega (arith, prefix.low, r.holds.1) in
      let h = mined_header sys tree (v.block v.tip) (v.tip + 1) now random_bytes random in
      let (e, number, parent, shown) =
        mine_block_lem sys tree contract (c.nodes 0).chain v now random_bytes random {E = ⊥} r.shown
          (omega (arith, a.tip)) in
      let next : h.number ≡ a.main.tip + 1 = omega arith in
      let above : a.main.tip < h.number = omega arith in
      let chain : IsChain tree.genesis (put a.main h) =
        put-IsChain a.main h above tree.genesis a.chain (omega (arith, a.tip)) in
      let known = IsOnChain-put a.main h above in
      let kept = further a.main a.chain h above chain (floor a.main 0) (c.nodes 0) r in
      let linked =
        put_next-IsLinked contract a.main h next
          (parent ∙ ap (λ b. b.hash) (prefix.same v.tip (omega arith) ∙ ap a.main.block level))
          a.linked in
      let tips : (put a.main h).tip ≤ (put v h).tip = unfold put in omega (arith, level) in
      let mined_one : Keeps chain (floor (put a.main h) 0) (record (c.nodes 0) {
        chain = (mine_block sys tree {E = ⊥} now random_bytes random (c.nodes 0).chain).1;
      }) =
        record {
          view = put v h;
          shown = shown;
          holds = (put-IsPrefix a.main h above v prefix level next, tips);
          collected = kept.collected;
          sent = kept.sent;
          served = kept.served;
        } in
      record {
        main = put a.main h;
        chain = chain;
        linked = linked;
        tip = omega (arith, tip-put_next a.main h next, a.tip);
        runs = λ j.
            update-each (λ k. Keeps chain (floor (put a.main h) k)) c.nodes 0 _ j mined_one
              (λ apart.
                rw apart
                  (further a.main a.chain h above chain (floor a.main j) (c.nodes j) (a.runs j)));
        in_flight =
            All-append (IsOnChain (put a.main h)) c.sent _ (All-map _ _ known c.sent a.in_flight)
              (rw e (IsOnChain-top a.main h above, tt));
      }

  pub Reach-Agrees :
      {n : ℕ} {c : Cluster tree H P R C} → n + 1 < u64_mod → Reach sys contract F n c → Agrees n c
  Reach-Agrees fits (start chains pools providers shown) = start-Agrees chains pools providers shown
  Reach-Agrees fits (mines {n = n} {c = c} now random_bytes random r) =
      mine-Agrees n c now random_bytes random (omega arith) (Reach-Agrees (omega arith) r)
  Reach-Agrees fits (polls {n = n} {c = c} i peers now call answers r) =
      (poll-Agrees n c i peers now call answers (Reach-Agrees fits r)).1
  Reach-Agrees fits (restarts {n = n} {c = c} i pool provider r) =
      restart-Agrees n c i pool provider (Reach-Agrees fits r)

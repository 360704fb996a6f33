-- ===== src/Manager/Announced.antt =====
-- src/net/chain.rs: what the announcement of a header does.
use simb.Prelude.{
  ◌+◌, ◌<◌, ◌≡◌, ◌≢◌, refl, sym, ap, subst, ◌∙◌, ◌⊎◌, none, some, [], ◌∷◌, ◌++◌, if◌then◌else◌,
  Bool, true, arith, str_eq_refl,
}
use simb.Prelude.Result.{ok, err}
use simb.Interface.{Header, header_eq_iff}
use simb.External.{u64_mod}
use simb.BlockTree.Types.{BlockTree, block_header_not_found}
use simb.BlockTree.View.{View, check, put, add}
use simb.BlockTree.Contract.{Contract}
use simb.Pool.{contains}
use simb.Manager.{
  incoming_new_block_header, broadcast_block_header, Manager, insert_hash, announce, request_peers,
  push_broadcast, on_added, on_event,
}
use simb.Manager.CatchUp.{next-add}

far-add :
    (g : Header) (checks : Bool) (v : View) (h : Header)
    → h ≢ g
    → v.tip + 1 < h.number
    → add g checks v h ≡ (err block_header_not_found, v)
unfolding add check
far-add g checks v h ne far = ground (arith, header_eq_iff h g)

module _ {tree : BlockTree} {H P R C : Type 0} where
  -- A request for peers is out only while a sync is marked as pending.
  pub record IsMarked (m : Manager tree H P R C) : Type 0 where
    pub marked : (m.closest_peers_request_for_sync ≡ none) ⊎ (m.pending_sync_request ≡ true)

  request_peers_marked :
      (h : Header) (m : Manager tree H P R C)
      → IsMarked m
      → (request_peers h m).pending_sync_request ≡ true
  request_peers_marked h m i = ground (arith, i.marked)

  request_peers_again :
      (h : Header) (m : Manager tree H P R C)
      → m.pending_sync_request ≡ true
      → request_peers h m ≡ m
  request_peers_again h m e = ground (arith, e)

  announce-contains :
      (h : Header) (m : Manager tree H P R C)
      → contains (announce h m).broadcasted_headers h.hash ≡ true
  unfolding contains insert_hash
  announce-contains h m = ground (arith, str_eq_refl h.hash)

  announce_again :
      (h : Header) (m : Manager tree H P R C)
      → contains m.broadcasted_headers h.hash ≡ true
      → announce h m ≡ m
  announce_again h m e = rw e refl

  announce-IsMarked : (h : Header) (m : Manager tree H P R C) → IsMarked m → IsMarked (announce h m)
  announce-IsMarked h m i = record { marked = ground (arith, i.marked) }

  announced_broadcasts :
      (h : Header) (m : Manager tree H P R C)
      → (request_peers h (announce h m)).broadcast_requests ≡ (
          if contains m.broadcasted_headers h.hash
          then m.broadcast_requests
          else m.broadcast_requests ++ broadcast_block_header h ∷ [])
  announced_broadcasts h m = ground arith

  announced_peers :
      (h : Header) (m : Manager tree H P R C)
      → IsMarked m
      → (request_peers h (announce h m)).closest_peers_request_for_sync
        ≡ (if m.pending_sync_request then m.closest_peers_request_for_sync else some h)
  announced_peers h m i = ground (arith, i.marked)

  same_hashes :
      (h : Header) (m : Manager tree H P R C)
      → (request_peers h m).broadcasted_headers ≡ m.broadcasted_headers
  same_hashes h m = ground arith

  pub same_chain :
      (h : Header) (m : Manager tree H P R C) → (request_peers h (announce h m)).chain ≡ m.chain
  same_chain h m = ground arith

module _ {tree : BlockTree} {checks : Bool} (contract : Contract tree checks) {H P R C : Type 0}
    (v : View) (h : Header) where
  abbrev pub after : Manager tree H P R C → Manager tree H P R C
  after m = (on_event checks (incoming_new_block_header h) m).1

  pub far_lem :
      (m : Manager tree H P R C)
      → contract.Shows m.chain v
      → h ≢ tree.genesis
      → v.tip + 1 < h.number
      → h.number + 1 < u64_mod
      → (chain : tree.Self) × contract.Shows chain v
        × (on_event checks (incoming_new_block_header h) m
            ≡ (ok tt, request_peers h (announce h (record m { chain = chain }))))
  unfolding on_event on_added
  far_lem m shown ne far fits =
      let (result, shown') = contract.add_lem m.chain v h shown fits in
      let e = far-add tree.genesis checks v h ne far in
      let shown1 : contract.Shows (tree.try_add_block_header h m.chain).1 v =
        subst (λ r. contract.Shows (tree.try_add_block_header h m.chain).1 r.1) e shown' in
      (
        (tree.try_add_block_header h m.chain).1,
        shown1,
        rw (result, e, on_event) (rw (contract.tip_lem _ v shown1, on_added) refl),
      )

  -- In a node where a request for peers is out only while a sync is marked as pending, a header
  -- more than one above the tip, with a number below the last u64, is passed on once and starts at
  -- most one sync. Its announcement adds one broadcast of it to those in progress, unless its hash
  -- has been passed on before; then a sync is pending, for this header with a request for peers if
  -- none was pending before, and the chain shows what it showed. A second announcement sends
  -- nothing and leaves all but the state of the chain as it was.
  pub far_header_once :
      (m : Manager tree H P R C)
      → contract.Shows m.chain v
      → IsMarked m
      → h ≢ tree.genesis
      → v.tip + 1 < h.number
      → h.number + 1 < u64_mod
      → ((on_event checks (incoming_new_block_header h) m).0 ≡ ok tt)
        × contract.Shows (after m).chain v
        × ((after m).broadcast_requests ≡ (
            if contains m.broadcasted_headers h.hash
            then m.broadcast_requests
            else m.broadcast_requests ++ broadcast_block_header h ∷ []))
        × ((after m).pending_sync_request ≡ true)
        × ((after m).closest_peers_request_for_sync
            ≡ (if m.pending_sync_request then m.closest_peers_request_for_sync else some h))
        × ((on_event checks (incoming_new_block_header h) (after m)).0 ≡ ok tt)
        × (after (after m) ≡ record (after m) { chain = (after (after m)).chain })
  far_header_once m shown marked ne far fits =
      let (chain, shown1, e) = far_lem m shown ne far fits in
      let m1 : Manager tree H P R C = record m { chain = chain } in
      let first : after m ≡ request_peers h (announce h m1) = ap (λ r. r.1) e in
      let still : contract.Shows (after m).chain v =
        subst (λ c. contract.Shows c v) (sym (ap (λ n. n.chain) first ∙ same_chain h m1)) shown1 in
      let (chain2, shown2, e2) = far_lem (after m) still ne far fits in
      let pending : (after m).pending_sync_request ≡ true =
        ap (λ n. n.pending_sync_request) first
        ∙ request_peers_marked h (announce h m1)
            (announce-IsMarked h m1 (record { marked = marked.marked })) in
      let known : contains (after m).broadcasted_headers h.hash ≡ true =
        ap (λ n. contains n.broadcasted_headers h.hash) first
        ∙ ap (λ hs. contains hs h.hash) (same_hashes h (announce h m1))
        ∙ announce-contains h m1 in
      let second : after (after m) ≡ record (after m) { chain = chain2 } =
        ap (λ r. r.1) e2
        ∙ ap (request_peers h) (announce_again h (record (after m) { chain = chain2 }) known)
        ∙ request_peers_again h (record (after m) { chain = chain2 }) pending in
      (
        ap (λ r. r.0) e,
        still,
        ap (λ n. n.broadcast_requests) first ∙ announced_broadcasts h m1,
        pending,
        ap (λ n. n.closest_peers_request_for_sync) first
            ∙ announced_peers h m1 (record { marked = marked.marked }),
        ap (λ r. r.0) e2,
        second
            ∙ ap (λ (n : Manager tree H P R C). record (after m) { chain = n.chain }) (sym second),
      )

  -- A header that is one above the tip and names its hash, with a number below the last u64, is put
  -- on the chain and passed on once, and nothing else in the node changes.
  pub next_header_lem :
      (m : Manager tree H P R C)
      → contract.Shows m.chain v
      → h.number ≡ v.tip + 1
      → (v.block v.tip).hash ≡ h.parent_hash
      → h.number + 1 < u64_mod
      → (chain : tree.Self) × contract.Shows chain (put v h)
        × (on_event checks (incoming_new_block_header h) m
            ≡ (ok tt, push_broadcast (broadcast_block_header h) (record m { chain = chain })))
  unfolding on_event on_added
  next_header_lem m shown next parent fits =
      let (result, shown') = contract.add_lem m.chain v h shown fits in
      let e = next-add tree.genesis checks v h next parent in
      (
        (tree.try_add_block_header h m.chain).1,
        subst (λ r. contract.Shows (tree.try_add_block_header h m.chain).1 r.1) e shown',
        rw (result, e, on_event) refl,
      )

-- ===== src/Manager/Rule.antt =====
-- src/net/chain.rs: what holds of the headers that come to a node, and of those that it sends.
use simb.Prelude.{
  ℕ, zero, suc, ◌+◌, ◌≤◌, ◌<◌, ◌≡◌, ◌⊎◌, inl, inr, Bool, Bool-cases, arith, All, All-append,
}
use simb.Prelude.Result.{Result, ok, err, panic}
use simb.Interface.{Header, header_eq_iff}
use simb.External.{u64_mod}
use simb.BlockTree.Types.{
  BlockTree, Error, invalid, block_header_not_found, database_error, AddedBlockResult,
}
use simb.BlockTree.View.{View, IsNumbered, check, add}
use simb.SyncHeader.Requests.{blocks}
use simb.Pool.{contains}
use simb.Manager.{
  ChainNetworkEvent, incoming_new_block_header, incoming_transactions, get_block_headers, Manager,
  announce, request_peers, Broadcast, broadcast_block_header, broadcast_transactions,
  GetBlockHeadersResponse,
}

-- A header whose number is below the last u64, and not 0 unless it is the genesis header.
abbrev pub IsUsual : Header → Header → Type 0
IsUsual genesis h = ((h ≡ genesis) ⊎ (1 ≤ h.number)) × (h.number + 1 < u64_mod)

-- The answers of `add` that leave a node running.
abbrev pub IsFine : Result Error AddedBlockResult → Type 0
IsFine (ok r) = Unit
IsFine (err invalid) = Unit
IsFine (err block_header_not_found) = Unit
IsFine (err (database_error e)) = ⊥
IsFine panic = ⊥

pub add-IsFine :
    (g : Header) (checks : Bool) (v : View) (h : Header) → IsUsual g h → IsFine (add g checks v h).0
unfolding add check
add-IsFine g checks v h usual = ground (arith, header_eq_iff h g)

-- What a node relies on, of the headers that come to it, and what it keeps to: what holds of its
-- view, and of the headers that it sends.
pub record Rule (genesis : Header) (checks : Bool) : Type 1 where
  pub Comes : Header → Type 0
  pub Leaves : Header → Type 0
  pub Holds : View → Type 0
  pub Comes-IsUsual : (h : Header) → Comes h → IsUsual genesis h
  pub Comes-Leaves : (h : Header) → Comes h → Leaves h
  pub Holds-add :
      (v : View) (h : Header) → IsNumbered v → Holds v → Comes h → Holds (add genesis checks v h).1
  pub Holds-Leaves : (v : View) (n : ℕ) → IsNumbered v → Holds v → n ≤ v.tip → Leaves (v.block n)

-- A predicate of the header that an event announces.
abbrev pub Announces : {R C : Type 0} → (Header → Type 0) → ChainNetworkEvent R C → Type 0
Announces Q (incoming_new_block_header h) = Q h
Announces Q (incoming_transactions ts) = Unit
Announces Q (get_block_headers r c q) = Unit

-- A predicate of the header that a broadcast carries, and of those that a response does.
abbrev pub Carries : (Header → Type 0) → Broadcast → Type 0
Carries Q (broadcast_block_header h) = Q h
Carries Q (broadcast_transactions ts) = Unit

abbrev pub Answered : {R C : Type 0} → (Header → Type 0) → R × GetBlockHeadersResponse C → Type 0
Answered Q x = All Q x.1.headers

pub blocks-All :
    (Q : Header → Type 0) (block : ℕ → Header) (start count : ℕ)
    → ((n : ℕ) → start ≤ n → n < start + count → Q (block n))
    → All Q (blocks block start count)
unfolding blocks
blocks-All Q block start zero each = tt
blocks-All Q block start (suc count) each = (
  each start (omega arith) (omega arith),
  blocks-All Q block (start + 1) count (λ n low high. each n (omega arith) (omega arith)),
)

module _ {tree : BlockTree} {H P R C : Type 0} (h : Header) (m : Manager tree H P R C) where
  pub same_syncs : (request_peers h (announce h m)).sync_requests ≡ m.sync_requests
  same_syncs = ground arith

  pub same_responses : (request_peers h (announce h m)).responses ≡ m.responses
  same_responses = ground arith

  pub announce-broadcasts :
      (Q : Header → Type 0)
      → Q h
      → All (Carries Q) m.broadcast_requests
      → All (Carries Q) (announce h m).broadcast_requests
  announce-broadcasts Q here sent = elim (Bool-cases (contains m.broadcasted_headers h.hash)) [
    | inl e ↦ rw e sent
    | inr e ↦ rw e (All-append (Carries Q) m.broadcast_requests _ sent (here, tt))
  ]

  pub request_peers-broadcasts : (request_peers h m).broadcast_requests ≡ m.broadcast_requests
  request_peers-broadcasts = ground arith

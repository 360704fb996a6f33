-- ===== src/BlockTree/Mined.antt =====
-- src/blocktree.rs: mining over any block tree, and mining with a broadcast over `Chain`.
use simb.Prelude.{ℕ, ◌+◌, ◌-◌, ◌<◌, ◌≡◌, refl, sym, ap, subst, ◌∙◌, Bool, arith, str_eq_iff}
use simb.Prelude.Result.{ok, and_then}
use simb.Prelude.Exec.{continue-pure}
use simb.Interface.{Header, Failures, RequestError, header_eq_iff}
use simb.Interface.Providers.{BroadcastProvider}
use simb.External.{System, Laws, Bytes, u64_mod}
use simb.BlockTree.Types.{BlockTree, mined, extend_tip}
use simb.BlockTree.Mining.{mine_block, mined_header}
use simb.BlockTree.Chain.{chain, mine_and_broadcast_block}
use simb.BlockTree.Contract.{Contract}
use simb.BlockTree.Shown.{Shows}
use simb.BlockTree.Refinement.{chain_contract}
use simb.BlockTree.View.{View, check, put, add}

-- A header one above the tip that names the tip's hash is added and extends the tip.
pub add_next :
    (g : Header) (checks : Bool) (v : View) (h : Header)
    → g.number ≡ 0
    → h.number ≡ v.tip + 1
    → h.parent_hash ≡ (v.block v.tip).hash
    → add g checks v h ≡ (ok extend_tip, put v h)
unfolding add check
add_next g checks v h zero next parent =
    let e : h.number - 1 ≡ v.tip = omega arith in
    ground (
      arith,
      header_eq_iff h g,
      ap (λ n. (v.block n).hash) e,
      str_eq_iff (v.block (h.number - 1)).hash h.parent_hash,
    )

module _ (sys : System) (tree : BlockTree) (c : Contract tree sys.overflow_checks) where
  module _ (s : tree.Self) (v : View) (now : ℕ) (random_bytes : Bytes) (random : ℕ) where
    abbrev next_header : Header
    next_header = mined_header sys tree (v.block v.tip) (v.tip + 1) now random_bytes random

    next_number : next_header.number ≡ v.tip + 1
    unfolding mined_header
    next_number = refl

    next_parent : next_header.parent_hash ≡ (v.block v.tip).hash
    unfolding mined_header
    next_parent = refl

    added_lem :
        c.Shows s v
        → v.tip + 2 < u64_mod
        → ((tree.try_add_block_header next_header s).0 ≡ ok extend_tip)
          × c.Shows (tree.try_add_block_header next_header s).1 (put v next_header)
    added_lem shown fits =
        let agrees = c.add_lem s v next_header shown (omega (arith, next_number)) in
        let next =
          add_next tree.genesis sys.overflow_checks v next_header c.genesis_number next_number
            next_parent in
        (
          agrees.0 ∙ ap (λ r. r.0) next,
          subst (λ r. c.Shows (tree.try_add_block_header next_header s).1 r.1) next agrees.1,
        )

    mine_block_eq :
        {E : Type 0}
        → c.Shows s v
        → v.tip + 2 < u64_mod
        → mine_block sys tree {E = E} now random_bytes random s
          ≡ (ok (mined next_header), (tree.try_add_block_header next_header s).1)
    unfolding mine_block
    mine_block_eq shown fits = ground (
      arith,
      c.tip_lem s v shown,
      (c.Shows-IsNumbered s v shown).numbered v.tip,
      (added_lem shown fits).0,
    )

    -- Over a chain that shows a view, with a tip three or more below the number of u64 values,
    -- mining never panics, fails or falls behind: it answers with a header one above the tip that
    -- names the tip's hash, and that header is put on the chain.
    pub mine_block_lem :
        {E : Type 0}
        → c.Shows s v
        → v.tip + 2 < u64_mod
        → ((mine_block sys tree {E = E} now random_bytes random s).0 ≡ ok (mined next_header))
          × (next_header.number ≡ v.tip + 1)
          × (next_header.parent_hash ≡ (v.block v.tip).hash)
          × c.Shows (mine_block sys tree {E = E} now random_bytes random s).1 (put v next_header)
    mine_block_lem shown fits =
        let e = mine_block_eq shown fits in
        (
          ap (λ r. r.0) e,
          next_number,
          next_parent,
          subst (λ r. c.Shows r.1 (put v next_header)) (sym e) (added_lem shown fits).1,
        )

module _ {sys : System} (laws : Laws sys) {F : Failures} where
  -- Over a database that shows a view the mined header is stored before it is broadcast, once and
  -- by the provider as it was, so it is on the chain also where the broadcast fails and the caller
  -- gets the error. The tip must be three or more below the number of u64 values.
  pub mine_and_broadcast_lem :
      {P : Type 0} (provider : BroadcastProvider F P) (db : sys.Db) (p : P) (v : View) (now : ℕ)
      (random_bytes : Bytes) (random : ℕ)
      → Shows laws db v
      → v.tip + 2 < u64_mod
      → let h = mined_header sys (chain sys) (v.block v.tip) (v.tip + 1) now random_bytes random in
        let (result, (db', p')) =
          mine_and_broadcast_block sys provider now random_bytes random (db, p) in
        (result ≡ and_then (provider.broadcast_block_header h p).0 (λ _. ok (mined h)))
        × (p' ≡ (provider.broadcast_block_header h p).1)
        × Shows laws db' (put v h)
  unfolding mine_and_broadcast_block
  mine_and_broadcast_lem provider db p v now random_bytes random shown fits =
      let h = mined_header sys (chain sys) (v.block v.tip) (v.tip + 1) now random_bytes random in
      let (done, _, _, shown') =
        mine_block_lem sys (chain sys) (chain_contract laws) db v now random_bytes random
          {E = RequestError F} shown fits in
      rw done (
        rw (continue-pure (provider.broadcast_block_header h p).0 (mined h) _) (refl, refl, shown'))

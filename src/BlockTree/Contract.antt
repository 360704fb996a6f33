-- ===== src/BlockTree/Contract.antt =====
-- What a client of a block tree relies on: each method of the trait does to the view what the
-- functions of BlockTree/View.antt do. src/net/chain.rs is such a client.
use simb.Prelude.{ℕ, ◌+◌, ◌<◌, ◌≡◌, Bool, Str}
use simb.Prelude.Result.{ok}
use simb.Interface.{Header}
use simb.External.{u64_mod}
use simb.BlockTree.Types.{BlockTree}
use simb.BlockTree.View.{View, IsNumbered, found, lookup, lookup_hash, add}

pub record Contract (tree : BlockTree) (checks : Bool) : Type 1 where
  pub Shows : tree.Self → View → Type 0
  pub Shows-IsNumbered : (s : tree.Self) (v : View) → Shows s v → IsNumbered v
  pub genesis_number : tree.genesis.number ≡ 0
  pub get_lem :
      (s : tree.Self) (v : View) (n : ℕ)
      → Shows s v
      → tree.get_header_by_block_number s n ≡ found (lookup v n)
  pub get_hash_lem :
      (s : tree.Self) (v : View) (hash : Str)
      → Shows s v
      → tree.get_header_by_hash s hash ≡ found (lookup_hash v hash)
  pub tip_lem : (s : tree.Self) (v : View) → Shows s v → tree.tip s ≡ ok (v.block v.tip)
  pub add_lem :
      (s : tree.Self) (v : View) (h : Header)
      → Shows s v
      → h.number + 1 < u64_mod
      → ((tree.try_add_block_header h s).0 ≡ (add tree.genesis checks v h).0)
        × Shows (tree.try_add_block_header h s).1 (add tree.genesis checks v h).1

-- ===== src/BlockTree/Mining.antt =====
-- src/blocktree.rs: the methods that the trait `BlockTree` defines itself. The clock, the random
-- bytes and the random numbers are arguments.
use simb.Prelude.{ℕ, Str, text, str_eq, if◌then◌else◌}
use simb.Prelude.Result.{Result, ok}
use simb.Prelude.Result
use simb.Prelude.Exec.{Exec, pure, reads, unwrap, ◌>>=◌}
use simb.Interface.{Header}
use simb.External.{System, Bytes, add_u64}
use simb.BlockTree.Types.{
  BlockTree, Error, AddedBlockResult, extend_tip, already_in_chain, MineBlockResult, mined,
  block_falling_behind,
}
use simb.BlockTree.Hash

unfoldable pub get_balance : Str → ℕ → Result Error ℕ
get_balance address random =
    if str_eq address (text "0x000000000000000000000000000000000000dead")
    then ok 57005
    else ok random

module _ (sys : System) (tree : BlockTree) where
  -- The header that is added after the hash was drawn: `state_root` and `timestamp` are constants.
  unfoldable pub mined_header : Header → ℕ → ℕ → Bytes → ℕ → Header
  unfolding Hash.mine_block
  mined_header prev number now random_bytes random =
      let state_root = sys.hex (sys.sha256 random_bytes) in
      let (nonce, hash) =
        Hash.mine_block sys number now prev.hash state_root (text "a block data") random in
      record {
        number = number;
        parent_hash = prev.hash;
        state_root = text "";
        timestamp = 0;
        nonce = nonce;
        hash = hash;
      }

  abbrev mine_result : Header → AddedBlockResult → MineBlockResult
  mine_result header already_in_chain = block_falling_behind
  mine_result header extend_tip = mined header

  unfoldable pub mine_block : {E : Type 0} → ℕ → Bytes → ℕ → Exec tree.Self E MineBlockResult
  mine_block now random_bytes random = do
    prev ← reads (λ s. Result.unwrap (tree.tip s))
    number ← reads (λ s. add_u64 sys.overflow_checks prev.number 1)
    let header = mined_header prev number now random_bytes random
    added ← unwrap (tree.try_add_block_header header)
    pure (mine_result header added)

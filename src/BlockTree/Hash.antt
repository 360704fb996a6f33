-- ===== src/BlockTree/Hash.antt =====
-- src/blocktree.rs: `calculate_hash` and the function `mine_block`.
use simb.Prelude.{ℕ, Str}
use simb.External.{System, Bytes}

module _ (sys : System) where
  unfoldable pub calculate_hash : ℕ → ℕ → Str → Str → Str → ℕ → Bytes
  calculate_hash block_number timestamp parent_hash state_root block_data nonce =
      sys.sha256 (sys.hash_json block_number parent_hash block_data state_root timestamp nonce)

  -- The nonce is the random number that the function draws.
  unfoldable pub mine_block : ℕ → ℕ → Str → Str → Str → ℕ → ℕ × Str
  unfolding calculate_hash
  mine_block number timestamp previous_hash state_root block_data nonce =
      (nonce, sys.hex (calculate_hash number timestamp previous_hash state_root block_data nonce))

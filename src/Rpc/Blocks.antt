-- ===== src/Rpc/Blocks.antt =====
-- src/rpc.rs: the methods for a block, over a block tree that keeps the contract.
use simb.Prelude.{ℕ, ◌<◌, ◌≡◌, refl, ◌++◌, Bool, Str, text, ap, ◌⊎◌, inl, inr, le-or-lt}
use simb.Prelude.Result.{ok, and_then}
use simb.External.{u64_mod}
use simb.BlockTree.Types.{BlockTree}
use simb.BlockTree.View.{View, found, lookup, lookup_hash}
use simb.BlockTree.Contract.{Contract}
use simb.Rpc.Hex.{hex, from_str_radix-hex, hex_head}
use simb.Rpc.{
  ErrorObject, hex_text, block_object, skip_prefix, answer, eth_get_block_by_number,
  eth_get_block_by_hash,
}

skip_prefix-hex_text :
    {E : Type 0} (n : ℕ) → n < u64_mod → skip_prefix {E = E} (hex_text n) ≡ ok (hex n)
unfolding skip_prefix
skip_prefix-hex_text n fits =
    let (c, s, same, _, inside) = hex_head n fits in rw same (rw (inside, skip_prefix) refl)

module _ {tree : BlockTree} {checks : Bool} (contract : Contract tree checks) (chain : tree.Self)
    (v : View) where
  -- A block asked for by the text `0x` and the hexadecimal digits of a u64 is the header that the
  -- chain shows at that number, as an object that shows the same text as its number, or the error
  -- that there is none; a block asked for by its hash is the header that the chain shows for it.
  pub eth_get_block_lem :
      (n : ℕ) (hash : Str)
      → contract.Shows chain v
      → n < u64_mod
      → (eth_get_block_by_number tree chain (ok (hex_text n))
          ≡ answer (found (lookup v n)) (text "Block not found at " ++ hex_text n))
        × ((v.tip < n) ⊎ ((block_object (v.block n)).block_number ≡ hex_text n))
        × (eth_get_block_by_hash tree chain (ok hash)
            ≡ answer (found (lookup_hash v hash)) (text "Block not found with hash: " ++ hash))
  unfolding eth_get_block_by_number eth_get_block_by_hash block_object
  eth_get_block_lem n hash shown fits = (
    rw (skip_prefix-hex_text {E = ErrorObject} n fits)
        (rw (from_str_radix-hex n fits, and_then) (rw (contract.get_lem chain v n shown) refl)),
    elim (le-or-lt n v.tip) [
      | inl low ↦ inr (ap hex_text ((contract.Shows-IsNumbered chain v shown).numbered n low))
      | inr above ↦ inl above
    ],
    rw (contract.get_hash_lem chain v hash shown) refl,
  )

-- ===== src/Tests/Servers.antt =====
-- The theorems about the miner and the RPC server, on the chain in memory.
use simb.Prelude.{ℕ, ◌+◌, ◌≤◌, ◌≡◌, ◌++◌, refl, [], ◌∷◌, none, some, arith, text}
use simb.Prelude.Result.{ok, err, panic}
use simb.Interface.{Header, timeout}
use simb.Prelude.BTreeMap
use simb.BlockTree.Reads.{genesis}
use simb.BlockTree.Restarted.{restarted_lem}
use simb.BlockTree.Chain
use simb.BlockTree.Chain.{chain}
use simb.BlockTree.Miner.{FixedBlockTimeMiner, ticks}
use simb.BlockTree.Ticking.{Draws, ended, mined_count}
use simb.BlockTree.Links.{IsLinked}
use simb.BlockTree.Shown.{Shows}
use simb.BlockTree.Refinement.{chain_contract}
use simb.BlockTree.View.{View}
use simb.BlockTree.Mining.{mine_block, mined_header}
use simb.Rpc.{SocketAddr, RpcServer, hex_text, block_object, internal_error_code}
use simb.Rpc.Mined.{mined_served}
use simb.Rpc.Hex.{hex, from_str_radix}
use simb.Rpc.Server.{block_reply, call}
use simb.Tests.Memory.{Rows, memory, memory_laws}
use simb.Tests.Chains.{rows, view, rows-Shows}
use simb.Tests.ChainTheorems.{failures}

abbrev draws : Draws failures
draws = (5, [], 8, none) ∷ (6, [], 9, some (err timeout)) ∷ []

-- The broadcast of the first block panics.
abbrev panicking : Draws failures
panicking = (7, [], 3, some panic) ∷ (8, [], 4, none) ∷ []

view-IsLinked : IsLinked view
view-IsLinked n below = ground arith

-- A new file, on which two blocks are mined, and one more after the next start.
abbrev new_file : Rows
new_file = record { headers = []; hashes = [] }

restarted_example :
    (db1 : Rows) × (miner1 : FixedBlockTimeMiner (chain memory)) × (Chain.new memory new_file
        (some 3)
      ≡ ok (db1, some miner1))
    × (let run1 = ticks memory draws miner1 in
        (run1.0 ≡ ok tt)
        × (v1 : View) × Shows memory_laws run1.1.chain v1
        × IsLinked v1
        × (v1.tip ≡ 2)
        × (v1.block 0 ≡ genesis memory)
        × (db2 : Rows) × (miner2 : FixedBlockTimeMiner (chain memory)) × (Chain.new memory
              run1.1.chain
              (some 4)
            ≡ ok (db2, some miner2))
        × (let run2 = ticks memory panicking miner2 in
            (run2.0 ≡ panic)
            × (v2 : View) × Shows memory_laws run2.1.chain v2
            × IsLinked v2
            × (v2.tip ≡ 2 + 1)
            × ((n : ℕ) → n ≤ 2 → v2.block n ≡ v1.block n)))
unfolding BTreeMap.get ended mined_count
restarted_example =
    restarted_lem memory_laws new_file draws panicking 3 4 (omega arith) (omega arith) tt
      (λ n. refl) (λ s. refl) (omega arith)

read_hex : from_str_radix (text "00fF") ≡ some 255
unfolding from_str_radix
read_hex = refl

write_hex : hex 43981 ≡ text "abcd"
unfolding hex
write_hex = refl

-- The one address that the sockets of this machine are bound to.
abbrev bound : SocketAddr
bound = record { ip = text "127.0.0.1"; port = 4000 }

abbrev pub server : RpcServer (chain memory)
server = record { addr = record { ip = text "0.0.0.0"; port = 8545 }; chain = rows }

-- The block that is mined on the chain in memory, and the server of the chain that has it.
abbrev mined_block : Header
mined_block =
    mined_header memory (chain memory) (view.block view.tip) (view.tip + 1) 1705551200 [] 4

abbrev later : RpcServer (chain memory)
later = record server { chain = (mine_block memory (chain memory) {E = ⊥} 1705551200 [] 4 rows).1 }

mined_served_example :
    let number = hex_text (view.tip + 1) in
    (call server (text "eth_getBlockByNumber") (ok number) 7
      ≡ block_reply (
          err (record {
            code = internal_error_code;
            message = text "Block not found at " ++ number;
          })))
    × (call later (text "eth_getBlockByNumber") (ok number) 7
        ≡ block_reply (ok (block_object mined_block)))
    × (call later (text "eth_getBlockByHash") (ok mined_block.hash) 7
        ≡ block_reply (ok (block_object mined_block)))
    × (call later (text "eth_getBlockByNumber") (ok (hex_text 1)) 7
        ≡ call server (text "eth_getBlockByNumber") (ok (hex_text 1)) 7)
mined_served_example =
    mined_served memory (chain_contract memory_laws) server view 1705551200 [] 4 1 7 rows-Shows
      (omega arith) (omega arith) (omega arith)

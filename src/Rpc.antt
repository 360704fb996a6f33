-- ===== src/Rpc.antt =====
-- src/rpc.rs: the builder and the three methods of the RPC server, over any block tree. What
-- `params.one()` makes of the request is an argument; the codes of jsonrpsee are constructors.
pub mod Hex
pub mod Blocks
pub mod Server
pub mod Service
pub mod Mined
use simb.Prelude.{
  ℕ, List, [], ◌∷◌, ◌++◌, Bool, Str, text, ◌&&◌, leb, ltb, if◌then◌else◌, Option, none, some,
}
use simb.Prelude.Result.{Result, ok, err, panic, expect, ◌>>=◌}
use simb.Interface.{Header, Transaction}
use simb.BlockTree.Types.{BlockTree, Error, invalid, block_header_not_found, database_error}
use simb.BlockTree.Mining.{get_balance}
use simb.Rpc.Hex.{hex, from_str_radix}

abbrev pub mock_auth_token : Str
mock_auth_token = text "mock_auth_token"

pub record SocketAddr : Type 0 where
  pub ip : Str
  pub port : ℕ

pub record RpcServerBuilder (tree : BlockTree) : Type 0 where
  pub addr : SocketAddr
  pub chain : Option tree.Self

pub record RpcServer (tree : BlockTree) : Type 0 where
  pub addr : SocketAddr
  pub chain : tree.Self

module _ {tree : BlockTree} where
  unfoldable pub default : RpcServerBuilder tree
  default = record { addr = record { ip = text "127.0.0.1"; port = 8545 }; chain = none }

  abbrev pub with_addr : SocketAddr → RpcServerBuilder tree → RpcServerBuilder tree
  with_addr addr b = record b { addr = addr }

  abbrev pub with_chain : tree.Self → RpcServerBuilder tree → RpcServerBuilder tree
  with_chain chain b = record b { chain = some chain }

  unfoldable pub build : {E : Type 0} → RpcServerBuilder tree → Result E (RpcServer tree)
  build b = do chain ← expect b.chain; ok (record { addr = b.addr; chain = chain })

pub data ErrorCode : Type 0 where
  invalid_params_code internal_error_code : ErrorCode

pub record ErrorObject : Type 0 where
  pub code : ErrorCode
  pub message : Str

-- The object that both methods for a block answer with.
pub record BlockObject : Type 0 where
  pub block_hash : Str
  pub block_number : Str
  pub state_root : Str
  pub parent_root : Str
  pub transactions : List Transaction

abbrev pub hex_text : ℕ → Str
hex_text n = text "0x" ++ hex n

unfoldable pub block_object : Header → BlockObject
block_object header = record {
  block_hash = header.hash;
  block_number = hex_text header.number;
  state_root = header.state_root;
  parent_root = header.parent_hash;
  transactions = [];
}

-- `&s[2..]`, which panics where byte 2 is past the end or inside a character.
unfoldable pub skip_prefix : {E : Type 0} → Str → Result E Str
skip_prefix [] = panic
skip_prefix (a ∷ []) = panic
skip_prefix (a ∷ b ∷ []) = ok []
skip_prefix (a ∷ b ∷ c ∷ s) = if leb 128 c && ltb c 192 then panic else ok (c ∷ s)

-- The arms of the two `match`es on the chain's answer.
unfoldable pub answer : {E : Type 0} → Result E Header → Str → Result ErrorObject BlockObject
answer (ok header) message = ok (block_object header)
answer (err e) message = err (record { code = internal_error_code; message = message })
answer panic message = panic

module _ (tree : BlockTree) (chain : tree.Self) where
  unfoldable pub eth_get_block_by_number : Result ErrorObject Str → Result ErrorObject BlockObject
  unfolding answer
  eth_get_block_by_number one = do
    block_number ← one
    digits ← skip_prefix block_number
    elim (from_str_radix digits) [
      | some number ↦
          answer (tree.get_header_by_block_number chain number)
            (text "Block not found at " ++ block_number)
      | none ↦ err (record {
        code = invalid_params_code;
        message = text "Number should be in hex string format";
      })
    ]

  unfoldable pub eth_get_block_by_hash : Result ErrorObject Str → Result ErrorObject BlockObject
  unfolding answer
  eth_get_block_by_hash one = do
    hash ← one
    answer (tree.get_header_by_hash chain hash) (text "Block not found with hash: " ++ hash)

-- `Display` of `Error` in src/blocktree.rs.
abbrev pub error_text : Error → Str
error_text invalid = text "Invalid header"
error_text block_header_not_found = text "Block header not found in database"
error_text (database_error e) = text "Database error: " ++ e

unfoldable pub eth_get_balance : Result ErrorObject Str → ℕ → Result ErrorObject Str
eth_get_balance one random = do
  address ← one
  elim (get_balance address random) [
    | ok balance ↦ ok (hex_text balance)
    | err e ↦
        err
          (record { code = internal_error_code; message = text "Internal error: " ++ error_text e })
    | panic ↦ panic
  ]

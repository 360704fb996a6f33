-- ===== src/Rpc/Server.antt =====
-- src/rpc.rs: the start of the server, and the methods that it registers. What binding the socket
-- gives is an argument.
use simb.Prelude.{ℕ, ◌≡◌, refl, Option, none, some, Str, text, str_eq, if◌then◌else◌}
use simb.Prelude.Result.{Result, ok, expect}
use simb.BlockTree.Types.{BlockTree}
use simb.BlockTree.View.{View}
use simb.BlockTree.Contract.{Contract}
use simb.Rpc.{
  RpcServer, SocketAddr, BlockObject, ErrorObject, eth_get_block_by_number, eth_get_block_by_hash,
  eth_get_balance,
}

-- What a call of a method comes back with. A name that is not registered is an error of jsonrpsee.
pub data Reply : Type 0 where
  block_reply : Result ErrorObject BlockObject → Reply
  text_reply : Result ErrorObject Str → Reply
  method_not_found : Reply

module _ {tree : BlockTree} where
  -- The module of methods, on the chain of the server: by the name of the method, what
  -- `params.one()` makes of the request, and what `get_balance` draws.
  unfoldable pub call : RpcServer tree → Str → Result ErrorObject Str → ℕ → Reply
  unfolding eth_get_block_by_number eth_get_block_by_hash eth_get_balance
  call s name one random =
      if str_eq name (text "eth_getBlockByNumber")
      then block_reply (eth_get_block_by_number tree s.chain one)
      else if str_eq name (text "eth_getBlockByHash")
      then block_reply (eth_get_block_by_hash tree s.chain one)
      else if str_eq name (text "eth_getBalance")
      then text_reply (eth_get_balance one random)
      else method_not_found

  -- The address that is asked for is always the same; the one that is bound is kept.
  unfoldable pub start_server :
      (Str → Option SocketAddr) → RpcServer tree → Result ⊥ (Unit {0}) × RpcServer tree
  start_server bind s = elim (bind (text "127.0.0.1:0")) [
    | none ↦ (expect none, s)
    | some addr ↦ (ok tt, record s { addr = addr })
  ]

module _ {tree : BlockTree} (s : RpcServer tree) (one : Result ErrorObject Str) (random : ℕ) where
  pub call-number :
      call s (text "eth_getBlockByNumber") one random
      ≡ block_reply (eth_get_block_by_number tree s.chain one)
  unfolding call str_eq
  call-number = refl

  pub call-hash :
      call s (text "eth_getBlockByHash") one random
      ≡ block_reply (eth_get_block_by_hash tree s.chain one)
  unfolding call str_eq
  call-hash = refl

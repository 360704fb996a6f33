-- ===== src/BlockTree/Types.antt =====
-- src/blocktree.rs: the errors and results of a block tree, and the trait `BlockTree`.
use simb.Prelude.{ℕ, Str}
use simb.Prelude.Result.{Result}
use simb.Prelude.Exec.{Exec}
use simb.Interface.{Header}
use simb.External.{RedbError, transaction_error, storage_error, commit_error, table_error}

pub data Error : Type 0 where
  invalid block_header_not_found : Error
  database_error : Str → Error

-- The four `From` conversions.
unfoldable pub from_redb : RedbError → Error
from_redb (transaction_error e) = database_error e
from_redb (storage_error e) = database_error e
from_redb (commit_error e) = database_error e
from_redb (table_error e) = database_error e

pub data AddedBlockResult : Type 0 where
  extend_tip already_in_chain : AddedBlockResult

pub data MineBlockResult : Type 0 where
  mined : Header → MineBlockResult
  block_falling_behind : MineBlockResult

-- The methods that an implementation of the trait gives, over its state.
pub record BlockTree : Type 1 where
  pub Self : Type 0
  pub try_add_block_header : Header → Exec Self Error AddedBlockResult
  pub get_header_by_block_number : Self → ℕ → Result Error Header
  pub get_header_by_hash : Self → Str → Result Error Header
  pub tip : Self → Result Error Header
  pub genesis : Header

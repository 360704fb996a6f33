-- ===== src/BlockTree/Chain.antt =====
-- src/blocktree.rs: `Chain`. Its state is the database that all its clones share, and
-- beside it, in the one method that uses it, the provider.
use simb.Prelude.{ℕ, Option, none, some, ltb, if◌then◌else◌}
use simb.Prelude.Result.{Result, ok, err, panic}
use simb.Prelude.Result
use simb.Prelude.Exec.{Exec, pure, reads, on_first, on_second, ◌>>=◌}
use simb.Interface.{Header, Failures, RequestError}
use simb.Interface.Providers.{BroadcastProvider}
use simb.External.{System, Bytes, write_rows}
use simb.BlockTree.Types.{
  BlockTree, Error, AddedBlockResult, extend_tip, already_in_chain, MineBlockResult, mined,
  block_falling_behind,
}
use simb.BlockTree.Mining
use simb.BlockTree.Miner
use simb.BlockTree.Miner.{FixedBlockTimeMiner}
use simb.BlockTree.Reads.{
  from_db, genesis, get_header_by_block_number, get_header_by_hash, tip,
  validate_adjacent_block_header,
}

module _ (sys : System) where
  -- A transaction that fails is dropped, and leaves the database as it was.
  abbrev pub commit_rows : Result Error sys.Db → Exec sys.Db Error (Unit {0})
  commit_rows (ok db') db = (ok tt, db')
  commit_rows (err e) db = (err e, db)
  commit_rows panic db = (panic, db)

  -- The write transaction: both rows, then the commit, each with its `?`.
  unfoldable pub write_header : Header → Exec sys.Db Error (Unit {0})
  write_header header db =
      commit_rows
        (Result.and_then (from_db (sys.begin_write db)) λ txn.
          Result.and_then (from_db (sys.header_insert txn header.number (sys.encode_header header)))
            λ txn'.
              Result.and_then (from_db (sys.hash_insert txn' header.hash header.number))
                λ txn''. from_db (sys.commit txn''))
        db

  unfoldable pub try_add_block_header : Header → Exec sys.Db Error AddedBlockResult
  try_add_block_header header = do
    checked ← reads (λ db. validate_adjacent_block_header sys db header)
    old_tip ← reads (tip sys)
    written ← write_header header
    new_tip ← reads (tip sys)
    pure (if ltb old_tip.number new_tip.number then extend_tip else already_in_chain)

  -- `impl BlockTree for Chain`.
  abbrev pub chain : BlockTree
  chain = record {
    Self = sys.Db;
    try_add_block_header = try_add_block_header;
    get_header_by_block_number = get_header_by_block_number sys;
    get_header_by_hash = get_header_by_hash sys;
    tip = tip sys;
    genesis = genesis sys;
  }

  -- The miner that `new` spawns, on a clone of the chain.
  abbrev pub spawn_miner : sys.Db → Option ℕ → Result Error (Option (FixedBlockTimeMiner chain))
  spawn_miner db none = ok none
  spawn_miner db (some itv) =
      Result.and_then (Miner.new sys {tree = chain} db itv) λ miner. ok (some miner)

  -- `Chain::new` on the database that `Database::create` opened: the database with the genesis
  -- header, and the miner that is spawned, if any. What is written stays in the file also where the
  -- miner cannot be made.
  unfoldable pub new :
      sys.Db → Option ℕ → Result Error (sys.Db × Option (FixedBlockTimeMiner chain))
  unfolding Miner.new
  new db auto_mine =
      let header = genesis sys in
      Result.and_then
        (Result.unwrap (write_rows sys db header.number (sys.encode_header header) header.hash))
        λ db'. Result.and_then (spawn_miner db' auto_mine) λ miner. ok (db', miner)

  -- The state beside the database is that of the provider.
  module _ {F : Failures} {P : Type 0} (provider : BroadcastProvider F P) where
    broadcast_mined : MineBlockResult → Exec (sys.Db × P) (RequestError F) MineBlockResult
    broadcast_mined (mined header) = do
      sent ← on_second (provider.broadcast_block_header header)
      pure (mined header)
    broadcast_mined block_falling_behind = pure block_falling_behind

    unfoldable pub mine_and_broadcast_block :
        ℕ → Bytes → ℕ → Exec (sys.Db × P) (RequestError F) MineBlockResult
    unfolding broadcast_mined
    mine_and_broadcast_block now random_bytes random = do
      result ← on_first (Mining.mine_block sys chain now random_bytes random)
      broadcast_mined result

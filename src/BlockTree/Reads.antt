-- ===== src/BlockTree/Reads.antt =====
-- src/blocktree.rs: the methods of `Chain` that read the database.
use simb.Prelude.{ℕ, ◌==◌, not, none, some, Str, text, str_eq, if◌then◌else◌}
use simb.Prelude.Result.{Result, ok, err, expect, map_err, ◌>>=◌}
use simb.Interface.{Header, header_eq}
use simb.External.{System, RedbError, add_u64, sub_u64}
use simb.BlockTree.Types.{Error, invalid, block_header_not_found, from_redb}
use simb.BlockTree.Hash.{calculate_hash}

-- The conversion that `?` makes.
abbrev pub from_db {ℓ} : {A : Type ℓ} → Result RedbError A → Result Error A
from_db m = map_err from_redb m

module _ (sys : System) where
  unfoldable pub genesis : Header
  unfolding calculate_hash
  genesis = record {
    number = 0;
    parent_hash = text "genesis";
    state_root = text "0x";
    timestamp = 1705551177;
    nonce = 17012;
    hash = sys.hex (calculate_hash sys 0 1705551177 (text "genesis") (text "0x") (text "0x") 17012);
  }

  unfoldable pub get_header_by_block_number : sys.Db → ℕ → Result Error Header
  get_header_by_block_number db block_number = do
    txn ← from_db (sys.begin_read db)
    table ← from_db (sys.open_header_table txn)
    found ← from_db (sys.header_get table block_number)
    elim found [ some row ↦ expect (sys.decode_header row) | none ↦ err block_header_not_found ]

  unfoldable pub get_header_by_hash : sys.Db → Str → Result Error Header
  get_header_by_hash db hash = do
    txn ← from_db (sys.begin_read db)
    table ← from_db (sys.open_hash_table txn)
    found ← from_db (sys.hash_get table hash)
    elim found [
      | some block_number ↦ get_header_by_block_number db block_number
      | none ↦ err block_header_not_found
    ]

  unfoldable pub tip : sys.Db → Result Error Header
  tip db = do
    txn ← from_db (sys.begin_read db)
    table ← from_db (sys.open_header_table txn)
    last ← from_db (sys.header_last table)
    row ← expect last
    expect (sys.decode_header row.1)

  unfoldable pub validate_adjacent_block_header : sys.Db → Header → Result Error (Unit {0})
  validate_adjacent_block_header db header = if header_eq header genesis then ok tt else do
    parent_number ← sub_u64 sys.overflow_checks header.number 1
    parent_header ← get_header_by_block_number db parent_number
    if not (str_eq parent_header.hash header.parent_hash) then err invalid else do
      next_number ← add_u64 sys.overflow_checks parent_header.number 1
      if not (next_number == header.number) then err invalid else ok tt

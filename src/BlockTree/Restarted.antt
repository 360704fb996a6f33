-- ===== src/BlockTree/Restarted.antt =====
-- src/blocktree.rs: a database file from its first use on: opened, mined on, opened again.
use simb.Prelude.{ℕ, ◌+◌, ◌≤◌, ◌<◌, ◌≡◌, ap, ◌∙◌, none, some, arith, Str, inl, inr, le-or-lt}
use simb.Prelude.Result.{ok}
use simb.Interface.{Failures}
use simb.External.{System, Laws, u64_mod}
use simb.BlockTree.Reads.{genesis}
use simb.BlockTree.Chain
use simb.BlockTree.Chain.{chain}
use simb.BlockTree.Shown.{Shows}
use simb.BlockTree.Refinement.{chain_contract, genesis_number}
use simb.BlockTree.Links.{IsLinked}
use simb.BlockTree.Miner.{FixedBlockTimeMiner, ticks}
use simb.BlockTree.Ticking.{Draws, ended, mined_count, ticks_lem}
use simb.BlockTree.Opened.{genesis_view, new-empty, new-used}
use simb.BlockTree.View.{View, put}

put_genesis-block :
    (sys : System) (v : View)
    → v.block 0 ≡ genesis sys
    → ((n : ℕ) → 1 ≤ n → (put v (genesis sys)).block n ≡ v.block n)
    → (n : ℕ) → (put v (genesis sys)).block n ≡ v.block n
unfolding put
put_genesis-block sys v first above n = elim (le-or-lt 1 n) [
  | inl low ↦ above n low
  | inr zero ↦ ground (arith, first, genesis_number sys)
]

some-positive : (itv : ℕ) → 1 ≤ itv → (i : ℕ) → some itv ≡ some i → 1 ≤ i
some-positive itv positive i e = ground arith

module _ {sys : System} (laws : Laws sys) {F : Failures} (db : sys.Db) where
  -- On a file that can be written and holds no rows a node starts that mines, stops, is started
  -- again on the same file and mines on, with positive intervals: both starts succeed, and each
  -- spawns a miner, whose ticks end with a panic only if a broadcast panics. The chain after the
  -- first run is linked and has as many headers above the genesis header as there were ticks, up to
  -- the one whose broadcast panicked; and the second run adds as many as it has ticks, likewise, to
  -- the headers of the first, all of which stay. The numbers must stay below the last u64.
  pub restarted_lem :
      (draws draws' : Draws F) (itv itv' : ℕ)
      → 1 ≤ itv
      → 1 ≤ itv'
      → laws.IsOpen db
      → ((n : ℕ) → laws.header_rows db n ≡ none)
      → ((s : Str) → laws.hash_rows db s ≡ none)
      → mined_count draws + mined_count draws' + 1 < u64_mod
      → (db1 : sys.Db) × (miner1 : FixedBlockTimeMiner (chain sys)) × (Chain.new sys db (some itv)
          ≡ ok (db1, some miner1))
        × (let first = ticks sys draws miner1 in
            (first.0 ≡ ended draws)
            × (v1 : View) × Shows laws first.1.chain v1
            × IsLinked v1
            × (v1.tip ≡ mined_count draws)
            × (v1.block 0 ≡ genesis sys)
            × (db2 : sys.Db) × (miner2 : FixedBlockTimeMiner (chain sys)) × (Chain.new sys
                  first.1.chain
                  (some itv')
                ≡ ok (db2, some miner2))
            × (let second = ticks sys draws' miner2 in
                (second.0 ≡ ended draws')
                × (v2 : View) × Shows laws second.1.chain v2
                × IsLinked v2
                × (v2.tip ≡ mined_count draws + mined_count draws')
                × ((n : ℕ) → n ≤ mined_count draws → v2.block n ≡ v1.block n)))
  restarted_lem draws draws' itv itv' positive positive' o no_rows no_hashes fits =
      let (db1, opened, shown, _) =
        new-empty laws db (some itv) (some-positive itv positive) o no_rows no_hashes in
      let miner1 : FixedBlockTimeMiner (chain sys) = record {
        interval = itv;
        chain = db1;
        pending_broadcast = none;
      } in
      let g = genesis_view (genesis sys) in
      let c = chain_contract laws in
      let (done, (v1, shown1, linked1, tip1, same1)) =
        ticks_lem sys c draws miner1 g shown (λ n below. absurd (omega arith)) (omega arith) in
      let kept : v1.block 0 ≡ genesis sys = same1 0 (omega arith) in
      let (db2, opened2, shown2, tip2, above, linked2) =
        new-used laws (ticks sys draws miner1).1.chain (some itv') (some-positive itv' positive') v1
          shown1 linked1 (ap (λ h. h.hash) kept) in
      let miner2 : FixedBlockTimeMiner (chain sys) = record {
        interval = itv';
        chain = db2;
        pending_broadcast = none;
      } in
      let (done', (v2, shown3, linked3, tip3, same3)) =
        ticks_lem sys c draws' miner2 (put v1 (genesis sys)) shown2 linked2 (omega arith) in
      (
        db1,
        miner1,
        opened,
        (
          done,
          v1,
          shown1,
          linked1,
          omega arith,
          kept,
          db2,
          miner2,
          opened2,
          (
            done',
            v2,
            shown3,
            linked3,
            omega arith,
            λ n low. same3 n (omega arith) ∙ put_genesis-block sys v1 kept above n,
          ),
        ),
      )

-- ===== src/BlockTree/Opened.antt =====
-- src/blocktree.rs: what `Chain::new` makes of a database file, new or used before.
use simb.Prelude.{
  ℕ, ◌≤◌, ◌≡◌, refl, sym, ap, ◌∙◌, inr, Option, none, some, arith, Str, str_eq, if◌then◌else◌,
}
use simb.Prelude.Result.{ok}
use simb.Interface.{Header, header_eq_iff}
use simb.External.{System, Laws}
use simb.BlockTree.Reads.{genesis, tip}
use simb.BlockTree.Chain.{chain, new, spawn_miner}
use simb.BlockTree.Miner
use simb.BlockTree.Miner.{FixedBlockTimeMiner}
use simb.BlockTree.Shown.{Shows, tip_lem}
use simb.BlockTree.Refinement.{Wrote, put-Shows, genesis_number}
use simb.BlockTree.Links.{IsLinked, put-IsLinked}
use simb.BlockTree.View.{View, check, put}

-- The genesis header alone.
abbrev pub genesis_view : Header → View
genesis_view g = record {
  tip = 0;
  block = λ _. g;
  number_of = λ s. if str_eq g.hash s then some 0 else none;
}

module _ {sys : System} (laws : Laws sys) (db : sys.Db) (auto_mine : Option ℕ)
    (positive : (itv : ℕ) → auto_mine ≡ some itv → 1 ≤ itv) where
  -- The miner of the interval that was asked for, on the chain as it is opened.
  abbrev pub miner_of : sys.Db → Option ℕ → Option (FixedBlockTimeMiner (chain sys))
  miner_of db' none = none
  miner_of db' (some itv) = some (record { interval = itv; chain = db'; pending_broadcast = none })

  spawn_miner-positive :
      (db' : sys.Db) (o : Option ℕ) → auto_mine ≡ o → spawn_miner sys db' o ≡ ok (miner_of db' o)
  unfolding Miner.new
  spawn_miner-positive db' none e = refl
  spawn_miner-positive db' (some itv) e =
      rw (laws.interval-positive itv (positive itv e), spawn_miner) refl

  new-Wrote :
      laws.IsOpen db
      → (db' : sys.Db) × (new sys db auto_mine ≡ ok (db', miner_of db' auto_mine))
        × Wrote laws db db' (genesis sys)
  unfolding new
  new-Wrote o =
      let g = genesis sys in
      let (db', e, up, rows, hashes) =
        laws.write_rows_lem db g.number (sys.encode_header g) g.hash o in
      (
        db',
        rw (e, spawn_miner-positive db' auto_mine refl) refl,
        record { up = up; rows = rows; hashes = hashes },
      )

  -- On a file that can be written and holds no rows the result shows the genesis header alone, as
  -- the tip, and the miner runs at the interval that was asked for.
  pub new-empty :
      laws.IsOpen db
      → ((n : ℕ) → laws.header_rows db n ≡ none)
      → ((s : Str) → laws.hash_rows db s ≡ none)
      → (db' : sys.Db) × (new sys db auto_mine ≡ ok (db', miner_of db' auto_mine))
        × Shows laws db' (genesis_view (genesis sys))
        × (tip sys db' ≡ ok (genesis sys))
  new-empty o no_rows no_hashes =
      let (db', e, wrote) = new-Wrote o in
      let zero = genesis_number sys in
      let shown : Shows laws db' (genesis_view (genesis sys)) = record {
        up = wrote.up;
        rows = λ n. ground (arith, wrote.rows n, no_rows n, zero);
        hashes = λ s. ground (arith, wrote.hashes s, no_hashes s, zero);
        numbering = record { numbered = λ n le. omega (arith, zero); fits = omega arith };
      } in
      (db', e, shown, tip_lem laws db' (genesis_view (genesis sys)) shown)

  -- On a file with a linked chain whose first header has the hash of the genesis header the headers
  -- above it are still there, with the same tip number, and the chain is linked.
  pub new-used :
      (v : View)
      → Shows laws db v
      → IsLinked v
      → (v.block 0).hash ≡ (genesis sys).hash
      → (db' : sys.Db) × (new sys db auto_mine ≡ ok (db', miner_of db' auto_mine))
        × Shows laws db' (put v (genesis sys))
        × ((put v (genesis sys)).tip ≡ v.tip)
        × ((n : ℕ) → 1 ≤ n → (put v (genesis sys)).block n ≡ v.block n)
        × IsLinked (put v (genesis sys))
  new-used v shown linked same =
      let (db', e, wrote) = new-Wrote (laws.IsUp-IsOpen db shown.up) in
      let zero = genesis_number sys in
      (
        db',
        e,
        put-Shows laws db db' v (genesis sys) shown (omega (arith, zero)) (omega (arith, zero))
            wrote,
        unfold put in omega (arith, zero),
        (λ n le. unfold put in ground (arith, zero)),
        put-IsLinked (genesis sys) sys.overflow_checks v (genesis sys) zero
            (unfold check in ground (arith, header_eq_iff (genesis sys) (genesis sys))) linked
            (inr (sym (ap (λ n. (v.block n).hash) zero ∙ same))),
      )

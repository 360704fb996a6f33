-- ===== src/BlockTree/Ticking.antt =====
-- src/blocktree.rs: what the ticks of a miner do to the chain.
use simb.Prelude.{
  ℕ, suc, ◌+◌, ◌-◌, List, [], ◌∷◌, sym, ◌∙◌, inl, inr, ◌<◌, ◌≤◌, ◌≡◌, refl, Bool, true, false,
  Bool-cases, Option, none, some, subst, arith, if◌then◌else◌,
}
use simb.Prelude.Result.{Result, ok, err, panic}
use simb.Interface.{Header, Failures, RequestError}
use simb.External.{System, Bytes, u64_mod}
use simb.BlockTree.Types.{BlockTree}
use simb.BlockTree.Mining.{mine_block, mined_header}
use simb.BlockTree.Mined.{mine_block_lem}
use simb.BlockTree.Miner.{FixedBlockTimeMiner, mine, end_broadcast, execute, ticks}
use simb.BlockTree.Contract.{Contract}
use simb.BlockTree.Added.{check-IsAdjacent}
use simb.BlockTree.Links.{IsLinked, put-IsLinked}
use simb.BlockTree.View.{View, put}

-- For each tick, what it draws, and what the broadcast is found to be, if it has ended.
abbrev pub Draws : Failures → Type 0
Draws F = List (ℕ × Bytes × ℕ × Option (Result (RequestError F) (Unit {0})))

abbrev pub panics : {F : Failures} → Option (Result (RequestError F) (Unit {0})) → Bool
panics (some panic) = true
panics _ = false

-- How ticks end, and how many there are up to the end: a broadcast that panics ends them.
unfoldable pub ended : {F : Failures} → Draws F → Result ⊥ (Unit {0})
ended [] = ok tt
ended ((now, random_bytes, random, outcome) ∷ draws) = if panics outcome then panic else ended draws

unfoldable pub mined_count : {F : Failures} → Draws F → ℕ
mined_count [] = 0
mined_count ((now, random_bytes, random, outcome) ∷ draws) =
    if panics outcome then 1 else suc (mined_count draws)

module _ {tree : BlockTree} {checks : Bool} (c : Contract tree checks) where
  pub put_next-IsLinked :
      (v : View) (h : Header)
      → h.number ≡ v.tip + 1
      → h.parent_hash ≡ (v.block v.tip).hash
      → IsLinked v
      → IsLinked (put v h)
  put_next-IsLinked v h next parent linked =
      let previous : h.number - 1 ≡ v.tip = omega arith in
      put-IsLinked tree.genesis checks v h c.genesis_number
        ((check-IsAdjacent tree.genesis checks v h).1
          (inr (omega arith, omega arith, rw previous (sym parent))))
        linked (inl (omega arith))

pub tip-put_next : (v : View) (h : Header) → h.number ≡ v.tip + 1 → (put v h).tip ≡ v.tip + 1
unfolding put
tip-put_next v h next = omega arith

pub block-put_next : (v : View) (h : Header) (n : ℕ) → n < h.number → (put v h).block n ≡ v.block n
unfolding put
block-put_next v h n below = ground arith

module _ (sys : System) {tree : BlockTree} (c : Contract tree sys.overflow_checks) where
  end_broadcast-pending :
      {F : Failures} (outcome : Option (Result (RequestError F) (Unit {0})))
      (m : FixedBlockTimeMiner tree) (header : Header)
      → ((end_broadcast sys outcome (record m { pending_broadcast = some header })).0
          ≡ (if panics outcome then panic else ok tt))
        × ((end_broadcast sys outcome (record m { pending_broadcast = some header })).1.chain
            ≡ m.chain)
  end_broadcast-pending none m header = (refl, refl)
  end_broadcast-pending (some (ok done)) m header = (refl, refl)
  end_broadcast-pending (some (err e)) m header = (refl, refl)
  end_broadcast-pending (some panic) m header = (refl, refl)

  execute_lem :
      {F : Failures} (m : FixedBlockTimeMiner tree) (v : View) (now : ℕ) (random_bytes : Bytes)
      (random : ℕ) (outcome : Option (Result (RequestError F) (Unit {0})))
      → c.Shows m.chain v
      → v.tip + 2 < u64_mod
      → ((execute sys true now random_bytes random outcome m).0
          ≡ (if panics outcome then panic else ok tt))
        × c.Shows
            (execute sys true now random_bytes random outcome m).1.chain
            (put v (mined_header sys tree (v.block v.tip) (v.tip + 1) now random_bytes random))
  unfolding execute mine
  execute_lem m v now random_bytes random outcome shown fits =
      let (e, _, _, shown') =
        mine_block_lem sys tree c m.chain v now random_bytes random {E = ⊥} shown fits in
      let h = mined_header sys tree (v.block v.tip) (v.tip + 1) now random_bytes random in
      let stored : FixedBlockTimeMiner tree = record m {
        chain = (mine_block sys tree {E = ⊥} now random_bytes random m.chain).1;
      } in
      let (ends, same) = end_broadcast-pending outcome stored h in
      rw (e, execute) (ends, subst (λ chain. c.Shows chain (put v h)) (sym same) shown')

  -- Each tick of a miner over a chain that keeps the contract extends the chain by one header,
  -- until a broadcast panics, which ends the ticks after its block is stored; a linked chain stays
  -- linked, and the headers up to the tip stay as they were. The numbers must stay below the last
  -- u64.
  pub ticks_lem :
      {F : Failures} (draws : Draws F) (m : FixedBlockTimeMiner tree) (v : View)
      → c.Shows m.chain v
      → IsLinked v
      → v.tip + mined_count draws + 1 < u64_mod
      → ((ticks sys draws m).0 ≡ ended draws)
        × ((v' : View) × c.Shows (ticks sys draws m).1.chain v'
            × IsLinked v'
            × (v'.tip ≡ v.tip + mined_count draws)
            × ((n : ℕ) → n ≤ v.tip → v'.block n ≡ v.block n))
  unfolding ticks ended mined_count
  ticks_lem [] m v shown linked fits = (refl, (v, shown, linked, omega arith, λ n low. refl))
  ticks_lem {F} ((now, random_bytes, random, outcome) ∷ draws) m v shown linked fits =
      let h = mined_header sys tree (v.block v.tip) (v.tip + 1) now random_bytes random in
      let room : v.tip + 2 < u64_mod = ground arith in
      let (_, next, parent, _) =
        mine_block_lem sys tree c m.chain v now random_bytes random {E = ⊥} shown room in
      let (e, shown') = execute_lem m v now random_bytes random outcome shown room in
      let longer = tip-put_next v h next in
      let linked1 = put_next-IsLinked c v h next parent linked in
      elim (Bool-cases (panics outcome)) [
        | inl stops ↦
            rw (e, stops, ticks, ended, mined_count)
              (
                refl,
                (put v h, shown', linked1, longer, λ n low. block-put_next v h n (omega arith)),
              )
        | inr goes ↦
            let (done, (v', shown'', linked', tip, same)) =
              ticks_lem draws (execute sys true now random_bytes random outcome m).1 (put v h)
                shown' linked1 (ground arith) in
            rw (e, goes, ticks, ended, mined_count)
              (
                done,
                (
                  v',
                  shown'',
                  linked',
                  omega arith,
                  λ n low. same n (omega arith) ∙ block-put_next v h n (omega arith),
                ),
              )
      ]

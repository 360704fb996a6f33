-- ===== src/BlockTree/Miner.antt =====
-- src/blocktree.rs: `FixedBlockTimeMiner`. Whether the timer has ticked, what mining draws, and
-- whether the pending broadcast is done, or has panicked, are arguments of each call of the future.
use simb.Prelude.{ℕ, List, [], ◌∷◌, Bool, true, Option, none, some, if◌then◌else◌}
use simb.Prelude.Result.{Result, ok, err, panic}
use simb.Prelude.Exec.{Exec, continue}
use simb.Interface.{Header, Failures, RequestError}
use simb.External.{System, Bytes}
use simb.BlockTree.Types.{BlockTree, MineBlockResult, mined, block_falling_behind}
use simb.BlockTree.Mining.{mine_block}

-- The header of the `BroadcastRequest` is the one that its outcome names.
pub record FixedBlockTimeMiner (tree : BlockTree) : Type 0 where
  pub interval : ℕ
  pub chain : tree.Self
  pub pending_broadcast : Option Header

pub record BroadcastOutcome (F : Failures) : Type 0 where
  pub header : Header
  pub outcome : Result (RequestError F) (Unit {0})

-- A `BroadcastRequest` polled, by what the provider's future gives, if it gives something: its
-- answer, or its panic, which goes on to the miner.
abbrev pub poll_broadcast :
    {F : Failures}
    → Header
    → Option (Result (RequestError F) (Unit {0}))
    → Option (BroadcastOutcome F)
poll_broadcast header none = none
poll_broadcast header (some outcome) = some (record { header = header; outcome = outcome })

module _ (sys : System) {tree : BlockTree} where
  -- `time::interval` panics where it makes no timer.
  unfoldable pub new : {E : Type 0} → tree.Self → ℕ → Result E (FixedBlockTimeMiner tree)
  new chain itv =
      if sys.interval itv
      then ok (record { interval = itv; chain = chain; pending_broadcast = none })
      else panic

  abbrev pub on_mined : MineBlockResult → FixedBlockTimeMiner tree → FixedBlockTimeMiner tree
  on_mined (mined header) m = record m { pending_broadcast = some header }
  on_mined block_falling_behind m = m

  -- The tick: mining, and the broadcast of what was mined, in place of the one before.
  unfoldable pub mine : ℕ → Bytes → ℕ → Exec (FixedBlockTimeMiner tree) ⊥ (Unit {0})
  mine now random_bytes random m =
      let result = mine_block sys tree {E = ⊥} now random_bytes random m.chain in
      continue result.0 (λ outcome m'. (ok tt, on_mined outcome m')) (record m { chain = result.1 })

  -- The arms of `match outcome`, which only log; a broadcast that panics ends the task.
  abbrev pub on_outcome :
      {F : Failures}
      → Result (RequestError F) (Unit {0})
      → Exec (FixedBlockTimeMiner tree) ⊥ (Unit {0})
  on_outcome (ok done) m = (ok tt, m)
  on_outcome (err e) m = (ok tt, m)
  on_outcome panic m = (panic, m)

  -- A broadcast that is done, well or not, is forgotten; one that is not is put back.
  abbrev pub end_broadcast :
      {F : Failures}
      → Option (Result (RequestError F) (Unit {0}))
      → Exec (FixedBlockTimeMiner tree) ⊥ (Unit {0})
  end_broadcast outcome m = elim m.pending_broadcast [
    | none ↦ (ok tt, m)
    | some header ↦ elim (poll_broadcast header outcome) [
      | some done ↦ on_outcome done.outcome (record m { pending_broadcast = none })
      | none ↦ (ok tt, record m { pending_broadcast = some header })
    ]
  ]

  -- One call of the function that `execute` polls.
  unfoldable pub execute :
      {F : Failures}
      → Bool
      → ℕ
      → Bytes
      → ℕ
      → Option (Result (RequestError F) (Unit {0}))
      → Exec (FixedBlockTimeMiner tree) ⊥ (Unit {0})
  unfolding mine
  execute ticked now random_bytes random outcome m =
      let tick = if ticked then mine now random_bytes random m else (ok tt, m) in
      continue tick.0 (λ _. end_broadcast outcome) tick.1

  -- Calls of the function at ticks, each with what mining draws and what the broadcast of the mined
  -- block is found to be.
  unfoldable pub ticks :
      {F : Failures}
      → List (ℕ × Bytes × ℕ × Option (Result (RequestError F) (Unit {0})))
      → Exec (FixedBlockTimeMiner tree) ⊥ (Unit {0})
  unfolding execute
  ticks [] m = (ok tt, m)
  ticks ((now, random_bytes, random, outcome) ∷ draws) m =
      continue (execute true now random_bytes random outcome m).0 (λ _ m'. ticks draws m')
        (execute true now random_bytes random outcome m).1

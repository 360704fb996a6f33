-- ===== src/Network/Rounds.antt =====
-- src/net/network.rs: what every round of the loop keeps to, the loop keeps to.
use simb.Prelude.{◌≡◌, refl, List, [], ◌∷◌, ◌++◌}
use simb.Prelude.Result.{Result, ok, err, panic}
use simb.Prelude.Exec.{Exec, pure, continue}
use simb.Interface.{Failures}
use simb.Network.{Receivers, NetworkManager}
use simb.Network.Swarm.{Libp2p}
use simb.Network.Run.{Ended, returned, waiting, Ready, select, run, go_on}

module _ {F : Failures} (net : Libp2p F) where
  -- Each round of a run meets a condition in the state that it finds.
  abbrev pub Each :
      (Ready net → NetworkManager net → Type 0)
      → List (Receivers × Ready net)
      → NetworkManager net
      → Type 0
  Each Meets [] m = Unit
  Each Meets ((r, x) ∷ rest) m = Meets x m × Each Meets rest (select net r x m).1

  after_round :
      (x : Result ⊥ Ended × NetworkManager net) (f g k : Exec (NetworkManager net) ⊥ Ended)
      → ((m : NetworkManager net) → g m ≡ continue (f m).0 (go_on net k) (f m).1)
      → continue x.0 (go_on net g) x.1
        ≡ continue
            (continue x.0 (go_on net f) x.1).0
            (go_on net k)
            (continue x.0 (go_on net f) x.1).1
  after_round (ok waiting, m) f g k later = later m
  after_round (ok returned, m) f g k later = refl
  after_round (err e, m) f g k later = refl
  after_round (panic, m) f g k later = refl

  -- A run goes on from where its first rounds have led, if they end by waiting.
  pub run-append :
      (xs ys : List (Receivers × Ready net)) (m : NetworkManager net)
      → run net (xs ++ ys) m ≡ continue (run net xs m).0 (go_on net (run net ys)) (run net xs m).1
  unfolding run
  run-append [] ys m = refl
  run-append ((r, x) ∷ xs) ys m =
      after_round (select net r x m) (run net xs) (run net (xs ++ ys)) (run net ys)
        (run-append xs ys)

  -- A relation of the state before and the one after.
  module _ (Keeps : NetworkManager net → NetworkManager net → Type 0)
      (refl_keeps : (m : NetworkManager net) → Keeps m m)
      (trans_keeps : (m m' m'' : NetworkManager net)
        → Keeps m m'
        → Keeps m' m''
        → Keeps m m'') where
    pub handled-Keeps :
        (m : NetworkManager net) (x : Result ⊥ (Unit {0}) × NetworkManager net)
        → Keeps m x.1
        → Keeps m (continue {B = Ended} x.0 (λ done. pure waiting) x.1).1
    handled-Keeps m (ok done, m') kept = kept
    handled-Keeps m (err e, m') kept = kept
    handled-Keeps m (panic, m') kept = kept

    round-Keeps :
        (m : NetworkManager net) (x : Result ⊥ Ended × NetworkManager net)
        (rest : Exec (NetworkManager net) ⊥ Ended)
        → Keeps m x.1
        → Keeps x.1 (rest x.1).1
        → Keeps m (continue x.0 (go_on net rest) x.1).1
    round-Keeps m (ok waiting, m') rest kept more = trans_keeps m m' (rest m').1 kept more
    round-Keeps m (ok returned, m') rest kept more = kept
    round-Keeps m (err e, m') rest kept more = kept
    round-Keeps m (panic, m') rest kept more = kept

    pub run-Keeps :
        (Meets : Ready net → NetworkManager net → Type 0)
        → ((r : Receivers) (x : Ready net) (m : NetworkManager net)
            → Meets x m
            → Keeps m (select net r x m).1)
        → (xs : List (Receivers × Ready net)) (m : NetworkManager net) → Each Meets xs m
        → Keeps m (run net xs m).1
    unfolding run
    run-Keeps Meets round [] m each = refl_keeps m
    run-Keeps Meets round ((r, x) ∷ rest) m each =
        round-Keeps m (select net r x m) (run net rest) (round r x m each.0)
          (run-Keeps Meets round rest (select net r x m).1 each.1)

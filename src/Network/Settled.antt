-- ===== src/Network/Settled.antt =====
-- src/net/network.rs: the account of the one-shot channels over a whole run.
use simb.Prelude.{ℕ, ◌+◌, ◌≡◌, refl, List, [], ◌∷◌, none, some, ◌==◌, if◌then◌else◌, arith}
use simb.Prelude.Result.{Result, ok, err, panic}
use simb.Prelude.Exec.{Exec, pure, continue, ◌>>=◌}
use simb.Interface.{Failures}
use simb.Network.{Receivers, NetworkManager}
use simb.Network.Swarm.{Libp2p}
use simb.Network.Run.{
  poll_get_block_headers, Ended, returned, waiting, Ready, select, run, go_on, respond,
  handle_response, HeadersReply,
}
use simb.Network.Run
use simb.Network.Account.{IsConsistent, account, Adds, Adds-from}
use simb.Network.Conserved.{sender_of_command, handle_command-Adds}
use simb.Network.Noted.{handle_event-Adds, respond-Adds}

module _ {F : Failures} (net : Libp2p F) where
  -- How many commands with the channel the loop takes before it returns.
  unfoldable pub asked : ℕ → List (Receivers × Ready net) → ℕ
  asked k [] = 0
  asked k ((r, Run.command none) ∷ rest) = 0
  asked k ((r, Run.command (some c)) ∷ rest) =
      (if k == sender_of_command net c then 1 else 0) + asked k rest
  asked k ((r, Run.event next e) ∷ rest) = asked k rest
  asked k ((r, Run.response j reply) ∷ rest) = asked k rest
  asked k ((r, Run.bootstrap) ∷ rest) = asked k rest

  -- A handler that leaves the loop waiting, and the rounds after it.
  handled-Adds :
      (k t n j : ℕ) (m : NetworkManager net) (x : Result ⊥ (Unit {0}) × NetworkManager net)
      (rest : Exec (NetworkManager net) ⊥ Ended)
      → t ≡ n + j
      → Adds net k n m x
      → ((m' : NetworkManager net) → IsConsistent net m' → Adds net k j m' (rest m'))
      → Adds net k t m ((continue x.0 (λ done. pure waiting) >>= go_on net rest) x.1)
  handled-Adds k t n j m (panic, m') rest e here more = tt
  handled-Adds k t n j m (err fault, m') rest e here more = elim fault [ ]
  handled-Adds k t n j m (ok done, m') rest e here more =
      Adds-from net k t j m m' (rest m') (omega (arith, here.0, e)) (more m' here.1)

  -- Over any run that ends without a panic, from a state in which no key stands twice in a table,
  -- every command adds its one-shot channel to the account once, and nothing else adds to it: how
  -- often a channel was settled, by a reply or by the loss of its sender, and how often it waits in
  -- the tables, is together what it was before and how many commands with it were taken; and no key
  -- stands twice in a table.
  pub run-Adds :
      (k : ℕ) (xs : List (Receivers × Ready net)) (m : NetworkManager net)
      → IsConsistent net m
      → Adds net k (asked k xs) m (run net xs m)
  unfolding run asked select account
  run-Adds k [] m i = (omega arith, i)
  run-Adds k ((r, Run.command none) ∷ rest) m i = (omega arith, i)
  run-Adds k ((r, Run.command (some c)) ∷ rest) m i =
      handled-Adds k _ _ _ m _ (run net rest) refl (handle_command-Adds net k r c m i)
        (run-Adds k rest)
  run-Adds k ((r, Run.event next e) ∷ rest) m i =
      handled-Adds k _ 0 _ m _ (run net rest) (omega arith) (handle_event-Adds net k r next e m i)
        (run-Adds k rest)
  run-Adds k ((r, Run.response j reply) ∷ rest) m i =
      handled-Adds k _ 0 _ m _ (run net rest) (omega arith)
        (respond-Adds net k r _ (poll_get_block_headers net reply) m i) (run-Adds k rest)
  run-Adds k ((r, Run.bootstrap) ∷ rest) m i = run-Adds k rest _ i

-- ===== src/Tests/Gossips.antt =====
-- Two nodes that the same transactions come to, in different ways.
use mathlib.Core.List.{Memᴰ}
use mathlib.Core.List.Memᴰ.{head, tail}
use simb.Prelude.{ℕ, ◌≡◌, true, ◌≢◌, refl, sym, List, [], ◌∷◌, none, some, arith, All, All-Memᴰ}
use simb.Prelude.Result.{ok, err}
use simb.Prelude.BTreeMap
use simb.Prelude.Order.{str_ord}
use simb.Interface.{Transaction, timeout}
use simb.SyncHeader.{Peer, failed}
use simb.Pool.Batches.{flat, IsConsistent}
use simb.Manager.{incoming_transactions, take_future, on_event}
use simb.Manager.Polling.{Ready, poll_events, poll_peers, poll_sync_requests, poll_broadcasts, poll}
use simb.Manager.Stuck.{polls}
use simb.Manager.Gossiped.{batches, pools_agree}
use simb.Tests.ChainTheorems.{failures}
use simb.Tests.Managers.{Node, idle, asking}
use simb.Tests.Pools.{b, c, pool, pool-IsPool}

abbrev silent : ℕ → Peer failures
silent p request = failed timeout

-- One after the other, and the answer that there are no peers.
abbrev apart : List (Ready failures ℕ ℕ ℕ)
apart =
    record {
      events = incoming_transactions (b ∷ []) ∷ [];
      peers = none;
      syncs = [];
      broadcasts = [];
    }
    ∷ record {
      events = incoming_transactions (c ∷ []) ∷ [];
      peers = some (err timeout);
      syncs = [];
      broadcasts = (0, ok tt) ∷ [];
    }
    ∷ []

-- All in one call, with a repetition.
abbrev together : List (Ready failures ℕ ℕ ℕ)
together =
    record {
      events = incoming_transactions (c ∷ b ∷ []) ∷ incoming_transactions (c ∷ []) ∷ [];
      peers = none;
      syncs = [];
      broadcasts = [];
    }
    ∷ []

abbrev node : Node
node = record asking { pool = pool }

abbrev other_node : Node
other_node = record idle { pool = pool }

abbrev Same : Transaction → Transaction → Type 0
Same s t = s.hash ≡ t.hash → s ≡ t

hash_pairs : All (λ s. All (Same s) (flat (batches together))) (flat (batches together))
hash_pairs =
    let apart' : b.hash ≢ c.hash = λ e. ground arith in
    let row_c : All (Same c) (flat (batches together)) =
      (λ e. refl, (λ e. absurd (apart' (sym e)), (λ e. refl, tt))) in
    let row_b : All (Same b) (flat (batches together)) =
      (λ e. absurd (apart' e), (λ e. refl, (λ e. absurd (apart' e), tt))) in
    (row_c, (row_b, (row_c, tt)))

together-IsConsistent : IsConsistent (flat (batches together))
together-IsConsistent s t there there' =
    All-Memᴰ (Same s) t (flat (batches together))
      (All-Memᴰ (λ s. All (Same s) (flat (batches together))) s (flat (batches together)) hash_pairs
        there)
      there'

pools_agree_example :
    ((polls true silent apart node).1.pool ≡ (polls true silent together other_node).1.pool)
    × ((tx : Transaction)
        → Memᴰ tx (flat (batches together))
        → BTreeMap.get tx.hash (polls true silent together other_node).1.pool ≡ some tx)
unfolding polls poll poll_events poll_peers poll_sync_requests poll_broadcasts on_event take_future
pools_agree_example =
    pools_agree true true silent silent apart together node other_node pool-IsPool refl refl refl
      together-IsConsistent
      (λ tx there.
        All-Memᴰ (λ t. Memᴰ t (flat (batches together))) tx (flat (batches apart))
          (tail (head refl), (head refl, tt)) there)
      λ tx there.
        All-Memᴰ (λ t. Memᴰ t (flat (batches apart))) tx (flat (batches together))
          (tail (head refl), (head refl, (tail (head refl), tt))) there

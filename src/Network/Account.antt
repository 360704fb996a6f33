-- ===== src/Network/Account.antt =====
-- What becomes of the one-shot channels of the commands: an account of those that were settled and
-- those that wait in a table.
use simb.Prelude.{
  inl, inr, Option-cases, ℕ, ◌+◌, ◌≡◌, ◌∙◌, List, [], ◌∷◌, ◌++◌, Option, none, some, Bool, ◌==◌,
  if◌then◌else◌, arith,
}
use simb.Prelude.Result.{Result, ok, err, panic}
use simb.Prelude.HashMap.{
  Equal, HashMap, get, without, insert, count, IsMap, without-IsMap, without-none, count-without,
  get-without, same_refl,
}
use simb.Prelude.Exec.{Exec, continue}
use simb.Interface.{Failures}
use simb.Network.{Receivers, NetworkManager, send, drop, send_to}
use simb.Network.Swarm.{Libp2p}
use simb.Network.Messages.{Reply}

abbrev pub counted {ℓ} : {V : Type ℓ} → (V → Bool) → Option V → ℕ
counted p none = 0
counted p (some v) = if p v then 1 else 0

module _ {ℓ κ} {K : Type ℓ} {V : Type κ} ⦃eq : Equal K⦄ (p : V → Bool) (k : K) (t : HashMap K V)
    (i : IsMap t) where
  pub count-get : count p t ≡ counted p (get k t) + count p (without k t)
  count-get = elim (Option-cases (get k t)) [
    | inl e ↦ grind (arith, without-none k t e)
    | inr (v, e) ↦ grind (arith, count-without p k v t i e)
  ]

  pub count-insert :
      (v : V) → counted p (get k t) + count p (insert k v t) ≡ (if p v then 1 else 0) + count p t
  unfolding count
  count-insert v = grind (arith, count-get)

  pub insert-IsMap : (v : V) → IsMap (insert k v t)
  insert-IsMap v = ground (arith, without-IsMap k t i, get-without k k t, same_refl k)

-- How often the channel was settled.
unfoldable pub tally {ℓ} : {A : Type ℓ} → ℕ → List (ℕ × A) → ℕ
tally k [] = 0
tally k ((tx, a) ∷ xs) = (if k == tx then 1 else 0) + tally k xs

pub tally-append {ℓ} :
    {A : Type ℓ} (k tx : ℕ) (a : A) (xs : List (ℕ × A))
    → tally k (xs ++ (tx, a) ∷ []) ≡ tally k xs + (if k == tx then 1 else 0)
unfolding tally
tally-append k tx a [] = grind arith
tally-append k tx a (x ∷ xs) = grind (arith, tally-append k tx a xs)

module _ {F : Failures} (net : Libp2p F) where
  abbrev pub IsConsistent : NetworkManager net → Type 0
  IsConsistent m =
      (IsMap ⦃eq = net.request_id_equal⦄ m.pending_request_headers)
      × (IsMap ⦃eq = net.query_id_equal⦄ m.pending_get_closest_peers)
      × (IsMap ⦃eq = net.peer_id_equal⦄ m.pending_dial)
      × (IsMap ⦃eq = net.listener_id_equal⦄ m.pending_listening)

  -- How many entries of the tables have the channel.
  unfoldable pub waiting : ℕ → NetworkManager net → ℕ
  unfolding count
  waiting k m =
      count (λ request. k == request.sender) m.pending_request_headers
      + (count (λ tx. k == tx) m.pending_get_closest_peers
          + (count (λ tx. k == tx) m.pending_dial + count (λ tx. k == tx) m.pending_listening))

  -- How often the channel was settled, or will be.
  unfoldable pub account : ℕ → NetworkManager net → ℕ
  unfolding tally waiting
  account k m = tally k m.outcomes + waiting k m

  -- What a step has added to the account of a channel, if it did not panic.
  abbrev pub Adds {ℓ} :
      {A : Type ℓ} → ℕ → ℕ → NetworkManager net → Result ⊥ A × NetworkManager net → Type 0
  Adds k n m (panic, m') = Unit
  Adds k n m (err e, m') = ⊥
  Adds k n m (ok a, m') = (account k m' ≡ n + account k m) × IsConsistent m'

  pub send-Adds :
      (k tx : ℕ) (r : Receivers) (reply : Reply net) (m : NetworkManager net)
      → IsConsistent m
      → Adds k (if k == tx then 1 else 0) m (send net r tx reply m)
  unfolding account waiting
  send-Adds k tx r reply m i = ground (arith, tally-append k tx (some reply) m.outcomes)

  pub drop-account :
      (k : ℕ) (o : Option ℕ) (m : NetworkManager net)
      → account k (drop net o m) ≡ counted (λ tx. k == tx) o + account k m
  unfolding account waiting
  drop-account k none m = omega arith
  drop-account k (some tx) m = ground (arith, tally-append k tx none m.outcomes)

  pub drop-IsConsistent :
      (o : Option ℕ) (m : NetworkManager net) → IsConsistent m → IsConsistent (drop net o m)
  drop-IsConsistent none m i = i
  drop-IsConsistent (some tx) m i = i

  pub drop-Adds :
      (k n : ℕ) (o : Option ℕ) (m m' : NetworkManager net)
      → IsConsistent m'
      → counted (λ tx. k == tx) o + account k m' ≡ n + account k m
      → Adds {A = Unit {0}} k n m (ok tt, drop net o m')
  drop-Adds k n o m m' i e = (drop-account k o m' ∙ e, drop-IsConsistent o m' i)

  pub send_to-Adds :
      (k : ℕ) (r : Receivers) (o : Option ℕ) (reply : Reply net) (m : NetworkManager net)
      → IsConsistent m
      → Adds k (counted (λ tx. k == tx) o) m (send_to net r o reply m)
  send_to-Adds k r none reply m i = (omega arith, i)
  send_to-Adds k r (some tx) reply m i = send-Adds k tx r reply m i

  pub Adds-from :
      {A : Type 0} (k n j : ℕ) (m m' : NetworkManager net) (x : Result ⊥ A × NetworkManager net)
      → n + account k m ≡ j + account k m'
      → Adds k j m' x
      → Adds k n m x
  Adds-from k n j m m' (panic, m'') e a = tt
  Adds-from k n j m m' (err fault, m'') e a = elim fault [ ]
  Adds-from k n j m m' (ok v, m'') e a = (omega (arith, a.0, e), a.1)

  -- A step and what follows it.
  pub Adds-continue :
      {A B : Type 0} (k n j : ℕ) (m : NetworkManager net) (x : Result ⊥ A × NetworkManager net)
      (f : A → Exec (NetworkManager net) ⊥ B)
      → Adds k n m x
      → ((a : A) (m' : NetworkManager net) → IsConsistent m' → Adds k j m' (f a m'))
      → Adds k (n + j) m (continue x.0 f x.1)
  Adds-continue k n j m (panic, m') f here more = tt
  Adds-continue k n j m (err fault, m') f here more = elim fault [ ]
  Adds-continue k n j m (ok v, m') f here more =
      Adds-from k (n + j) j m m' (f v m') (omega (arith, here.0)) (more v m' here.1)

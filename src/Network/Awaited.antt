-- ===== src/Network/Awaited.antt =====
-- src/net/network.rs: a response of the chain's manager stays awaited until it comes.
use mathlib.Core.List.{Memᴰ}
use mathlib.Core.List.Memᴰ.{head, tail}
use mathlib.Core.List.Memᴰ
use simb.Prelude.{
  ℕ, zero, suc, ◌==◌, ◌≡◌, refl, sym, subst, List, [], ◌∷◌, ◌++◌, ◌⊎◌, inl, inr, Option, none, some,
  Option-cases, Bool, Bool-cases, false, arith,
}
use simb.Prelude.Result.{Result}
use simb.Interface.{Failures}
use simb.Manager.{take_future}
use simb.Network.{Receivers, NetworkManager, handle_command, handle_response_block_headers}
use simb.Network.Swarm.{Libp2p}
use simb.Network.Messages
use simb.Network.Messages.{SwarmEvent, NetworkProviderMessage}
use simb.Network.Events.{
  handle_event, handle_mdns_event, handle_kad_event, handle_request_response_header_event,
  handle_gossipsub_message,
}
use simb.Network.Run.{
  Ended, returned, waiting, Ready, select, run, go_on, respond, HeadersReply,
  poll_get_block_headers,
}
use simb.Network.Run
use simb.Network.Rounds.{Each, handled-Keeps, run-Keeps}

-- A future that is taken is at some place, and the others stay.
pub take_future-mem :
    (k : ℕ) (xs : List ℕ)
    → Memᴰ k xs
    → (i : ℕ) × (others : List ℕ) × (take_future i xs ≡ some (k, others))
unfolding take_future
take_future-mem k [] there = elim there [ ]
take_future-mem k (x ∷ xs) (head e) = (0, xs, rw e refl)
take_future-mem k (x ∷ xs) (tail there) =
    let (i, others, e) = take_future-mem k xs there in (suc i, x ∷ others, rw e refl)

others_stay :
    (k i y : ℕ) (xs others : List ℕ)
    → take_future i xs ≡ some (y, others)
    → (y == k) ≡ false
    → Memᴰ k xs
    → Memᴰ k others
unfolding take_future
others_stay k i y [] others e other there = elim there [ ]
others_stay k zero y (x ∷ xs) others e other (head same) = absurd (ground (arith, e, same))
others_stay k zero y (x ∷ xs) others e other (tail there) = subst (Memᴰ k) (ground (arith, e)) there
others_stay k (suc i) y (x ∷ xs) others e other there = elim (Option-cases (take_future i xs)) [
  | inl f ↦ absurd (ground (arith, e, f))
  | inr ((z, rest), f) ↦
      let same : x ∷ rest ≡ others = ground (arith, e, f) in
      let kept : z ≡ y = ground (arith, e, f) in
      subst (Memᴰ k) same (elim there [
        | head here ↦ head here
        | tail later ↦ tail (others_stay k i z xs rest f (ground (arith, other, kept)) later)
      ])
]

module _ {F : Failures} (net : Libp2p F) where
  -- A round finds the response of a number ready.
  unfoldable pub takes : ℕ → Ready net → NetworkManager net → Bool
  takes k (Run.response i reply) m = elim (take_future i m.incoming_peer_requests) [
    | none ↦ false
    | some (y, others) ↦ y == k
  ]
  takes k (Run.event next e) m = false
  takes k (Run.command c) m = false
  takes k Run.bootstrap m = false

  -- At most one number is added to those that are awaited.
  abbrev Grows : {A : Type 0} → NetworkManager net → Result ⊥ A × NetworkManager net → Type 0
  Grows m x =
      (x.1.incoming_peer_requests ≡ m.incoming_peer_requests)
      ⊎ ((k : ℕ) × (x.1.incoming_peer_requests ≡ m.incoming_peer_requests ++ k ∷ []))

  abbrev pub Holds : ℕ → NetworkManager net → NetworkManager net → Type 0
  Holds k m m' = Memᴰ k m.incoming_peer_requests → Memᴰ k m'.incoming_peer_requests

  Grows-Holds :
      {A : Type 0} (k : ℕ) (m : NetworkManager net) (x : Result ⊥ A × NetworkManager net)
      → Grows m x
      → Holds k m x.1
  Grows-Holds k m x (inl same) there = subst (Memᴰ k) (sym same) there
  Grows-Holds k m x (inr (n, more)) there =
      subst (Memᴰ k) (sym more) (Memᴰ.append_left (n ∷ []) there)

  module _ (r : Receivers) where
    handle_command-Grows :
        (c : NetworkProviderMessage net) (m : NetworkManager net)
        → Grows m (handle_command net r c m)
    unfolding handle_command
    handle_command-Grows (Messages.get_closest_peers sender) m = inl (ground arith)
    handle_command-Grows (Messages.broadcast_block_header header tx) m = inl (ground arith)
    handle_command-Grows (Messages.broadcast_transactions tx txs) m = inl (ground arith)
    handle_command-Grows (Messages.get_headers request) m = inl (ground arith)
    handle_command-Grows (Messages.dial peer_id peer_addr tx) m = inl (ground arith)
    handle_command-Grows (Messages.listen_addrs tx) m = inl (ground arith)
    handle_command-Grows (Messages.start_listening addr tx) m = inl (ground arith)

    handle_event-Grows :
        (next : ℕ) (e : SwarmEvent net) (m : NetworkManager net)
        → Grows m (handle_event net r next e m)
    unfolding handle_event handle_mdns_event handle_kad_event handle_request_response_header_event
        handle_gossipsub_message
    handle_event-Grows next (Messages.mdns (Messages.discovered list)) m = inl refl
    handle_event-Grows next (Messages.mdns (Messages.expired list)) m = inl refl
    handle_event-Grows next (Messages.gossipsub_message topic data_bytes) m = inl (ground arith)
    handle_event-Grows next
          (Messages.kad (Messages.outbound_query_progressed j (Messages.closest_peers ps))) m =
        inl (ground arith)
    handle_event-Grows next
          (Messages.kad (Messages.outbound_query_progressed j Messages.closest_peers_timeout)) m =
        inl (ground arith)
    handle_event-Grows next
          (Messages.kad (Messages.outbound_query_progressed j Messages.other_result)) m =
        inl refl
    handle_event-Grows next (Messages.kad Messages.other_kad) m = inl refl
    handle_event-Grows next (Messages.request_response (Messages.request_message q channel)) m =
        elim (Bool-cases r.chain) [
          | inl there ↦ inr (next, rw there refl)
          | inr gone ↦ inl (rw gone refl)
        ]
    handle_event-Grows next (Messages.request_response (Messages.response_message j response)) m =
        inl (ground arith)
    handle_event-Grows next (Messages.request_response (Messages.outbound_failure j error)) m =
        inl (ground arith)
    handle_event-Grows next (Messages.request_response Messages.inbound_failure) m = inl refl
    handle_event-Grows next (Messages.request_response Messages.response_sent) m = inl refl
    handle_event-Grows next (Messages.connection_established peer_id is_dialer) m =
        inl (ground arith)
    handle_event-Grows next (Messages.outgoing_connection_error (some peer_id) error) m =
        inl (ground arith)
    handle_event-Grows next (Messages.outgoing_connection_error none error) m = inl refl
    handle_event-Grows next (Messages.new_listen_addr listener_id) m = inl (ground arith)
    handle_event-Grows next Messages.other_event m = inl refl

  respond-Holds :
      (k i : ℕ) (o : Option (ℕ × List ℕ)) (reply : HeadersReply net) (m : NetworkManager net)
      → take_future i m.incoming_peer_requests ≡ o
      → (elim o [ none ↦ false | some (y, others) ↦ y == k ]) ≡ false
      → Holds k m (respond net o reply m).1
  unfolding handle_response_block_headers
  respond-Holds k i none reply m e other there = there
  respond-Holds k i (some (y, others)) (inl error) m e other there =
      others_stay k i y m.incoming_peer_requests others e other there
  respond-Holds k i (some (y, others)) (inr response) m e other there =
      others_stay k i y m.incoming_peer_requests others e other there

  -- No round of a run finds the response ready.
  abbrev pub IsUntaken : ℕ → List (Receivers × Ready net) → NetworkManager net → Type 0
  IsUntaken k = Each net (λ x m. takes k x m ≡ false)

  module _ (k : ℕ) where
    Holds-refl : (m : NetworkManager net) → Holds k m m
    Holds-refl m there = there

    Holds-trans : (m m' m'' : NetworkManager net) → Holds k m m' → Holds k m' m'' → Holds k m m''
    Holds-trans m m' m'' held more there = more (held there)

    select-Holds :
        (r : Receivers) (x : Ready net) (m : NetworkManager net)
        → takes k x m ≡ false
        → Holds k m (select net r x m).1
    unfolding select takes
    select-Holds r (Run.event next e) m other =
        let x = handle_event net r next e m in
        handled-Keeps net (Holds k) Holds-refl Holds-trans m x
          (Grows-Holds k m x (handle_event-Grows r next e m))
    select-Holds r (Run.command (some c)) m other =
        let x = handle_command net r c m in
        handled-Keeps net (Holds k) Holds-refl Holds-trans m x
          (Grows-Holds k m x (handle_command-Grows r c m))
    select-Holds r (Run.command none) m other = λ there. there
    select-Holds r (Run.response i reply) m other =
        let reply' = poll_get_block_headers net reply in
        handled-Keeps net (Holds k) Holds-refl Holds-trans m (Run.handle_response net i reply' m)
          (respond-Holds k i (take_future i m.incoming_peer_requests) reply' m refl other)
    select-Holds r Run.bootstrap m other = λ there. there

    pub run-untaken :
        (xs : List (Receivers × Ready net)) (m : NetworkManager net)
        → IsUntaken k xs m
        → Holds k m (run net xs m).1
    run-untaken = run-Keeps net (Holds k) Holds-refl Holds-trans _ select-Holds

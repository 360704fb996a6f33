-- ===== src/Provider/Dialing.antt =====
-- src/net/provider.rs and src/net/network.rs: a dial, from the caller to the manager and back.
use simb.Prelude.{
  ℕ, ◌≡◌, refl, ap, ◌∙◌, [], ◌∷◌, ◌++◌, ◌⊎◌, inl, inr, Option, none, some, true, arith,
}
use simb.Prelude.Result.{ok, err}
use simb.Prelude.HashMap.{get, insert, get-insert, get-without, same_refl}
use simb.Interface.{Failures, channel_closed, dial_error}
use simb.Network.{Receivers, NetworkManager, handle_command, outcome, dialing, dial_entry}
use simb.Network.Swarm.{Libp2p}
use simb.Network.Messages
use simb.Network.Messages.{NetworkProviderMessage, Reply, unit_reply}
use simb.Network.Events.{handle_event, answer_dial}
use simb.Network.Account.{tally, tally-append}
use simb.Provider.Broadcasting.{sent_with_channel}
use simb.Provider.Received.{unit_of, received, received-append}
use simb.Provider.{NetworkProvider, RequestResponse, Replies, dial, await, send_command}

module _ {F : Failures} (net : Libp2p F) where
  module _ (peer_id : net.PeerId) (peer_addr : net.Multiaddr) (p : NetworkProvider net)
      (m : NetworkManager net) where
    -- The command that `dial` sends, and the provider after it.
    abbrev pub command : NetworkProviderMessage net
    command = Messages.dial peer_id peer_addr p.next_channel

    abbrev pub sent : NetworkProvider net
    sent = sent_with_channel (Messages.dial peer_id peer_addr) p

    abbrev pending : NetworkManager net → Option ℕ
    pending m' = get ⦃eq = net.peer_id_equal⦄ peer_id m'.pending_dial

    -- What the caller gets, once so much became of the channels.
    abbrev pub dialed : NetworkManager net → RequestResponse net (Unit {0})
    dialed m' = (dial net peer_id peer_addr (received net (unit_of net) m'.outcomes) p).0

    sent_lem :
        (replies : Replies net (Unit {0}))
        → p.received ≡ true
        → (dial net peer_id peer_addr replies p).1 ≡ sent
    unfolding dial send_command
    sent_lem replies there = ground arith

    -- Nothing came on the channel of the dial, or one thing, and so the caller gets this.
    abbrev pub IsWaiting : NetworkManager net → Type 0
    IsWaiting m' = tally p.next_channel m'.outcomes ≡ 0

    abbrev pub IsTold : RequestResponse net (Unit {0}) → NetworkManager net → Type 0
    IsTold result m' = (tally p.next_channel m'.outcomes ≡ 1) × (dialed m' ≡ result)

    told :
        (m' : NetworkManager net) (reply : Option (Reply net))
        → p.received ≡ true
        → IsWaiting m
        → m'.outcomes ≡ m.outcomes ++ (p.next_channel, reply) ∷ []
        → IsTold (await net (unit_of net reply)) m'
    unfolding dial send_command
    told m' reply there fresh became = (
      rw became
          (ground (arith, tally-append p.next_channel p.next_channel reply m.outcomes, fresh)),
      rw (there, became)
          (ap (await net)
            (received-append net (unit_of net) m.outcomes p.next_channel reply fresh)),
    )

    -- What the swarm makes of a dial to the address.
    abbrev pub swarm_dial : F.DialError ⊎ Unit {0}
    swarm_dial = (net.dial (net.with_p2p peer_addr peer_id) m.swarm).0

    -- The events that end a pending dial: the connection, or its failure.
    abbrev pub connected : Receivers → ℕ → NetworkManager net → NetworkManager net
    connected r next m' =
        (handle_event net r next (Messages.connection_established peer_id true) m').1

    abbrev pub failed : Receivers → ℕ → F.DialError → NetworkManager net → NetworkManager net
    failed r next e m' =
        (handle_event net r next (Messages.outgoing_connection_error (some peer_id) e) m').1

    -- How a dial ends: another to the same peer is pending, and stays, and the channel is closed;
    -- or the swarm refuses, and its error comes on the channel; or the dial is pending, and nothing
    -- comes until the connection is established, or fails: then that comes on the channel, and the
    -- dial is pending no more.
    abbrev pub Dials : Receivers → ℕ → NetworkManager net → Type 0
    Dials r next m' =
        ((other : ℕ) × (pending m ≡ some other)
          × (pending m' ≡ some other)
          × IsTold (err (channel_closed net.recv_error)) m')
        ⊎ (((e : F.DialError) × (pending m ≡ none)
              × (swarm_dial ≡ inl e)
              × (pending m' ≡ none)
              × IsTold (err (dial_error e)) m')
            ⊎ ((pending m ≡ none)
                × (swarm_dial ≡ inr tt)
                × (pending m' ≡ some p.next_channel)
                × IsWaiting m'
                × (pending (connected r next m') ≡ none)
                × IsTold (ok tt) (connected r next m')
                × ((e : F.DialError)
                    → (pending (failed r next e m') ≡ none)
                      × IsTold (err (dial_error e)) (failed r next e m'))))

    -- A pending dial is over, with a reply.
    answered :
        (r : Receivers) (reply : RequestResponse net (Unit {0})) (m' : NetworkManager net)
        → p.received ≡ true
        → r.awaits p.next_channel ≡ true
        → IsWaiting m
        → m'.outcomes ≡ m.outcomes
        → pending m' ≡ some p.next_channel
        → (pending (answer_dial net r peer_id (unit_reply reply) m').1 ≡ none)
          × IsTold reply (answer_dial net r peer_id (unit_reply reply) m').1
    answered r reply m' there awaits fresh same known =
        let over = (answer_dial net r peer_id (unit_reply reply) m').1 in
        (
          rw (known, awaits)
              (get-without ⦃eq = net.peer_id_equal⦄ peer_id peer_id m'.pending_dial
                ∙ rw (same_refl ⦃eq = net.peer_id_equal⦄ peer_id) refl),
          told over (some (unit_reply reply)) there fresh (
              rw (known, awaits)
                (ap (λ o. o ++ (p.next_channel, some (unit_reply reply)) ∷ []) same)),
        )

    dialing-Dials :
        (r : Receivers) (next : ℕ) (x : F.DialError ⊎ Unit {0}) (s : net.Swarm)
        → p.received ≡ true
        → r.awaits p.next_channel ≡ true
        → IsWaiting m
        → pending m ≡ none
        → swarm_dial ≡ x
        → Dials r next (dialing net r peer_id peer_addr p.next_channel x (record m { swarm = s })).1
    unfolding handle_event
    dialing-Dials r next (inl e) s there awaits fresh vacant gave =
        let reply : Option (Reply net) = some (unit_reply (err (dial_error e))) in
        rw awaits (
          inr (
            inl (
              e,
              vacant,
              gave,
              vacant,
              told (outcome net p.next_channel reply (record m { swarm = s })) reply there fresh
                  refl,
            )))
    dialing-Dials r next (inr done) s there awaits fresh vacant gave =
        let m1 : NetworkManager net = record m {
          swarm = net.add_address peer_id peer_addr s;
          pending_dial = insert ⦃eq = net.peer_id_equal⦄ peer_id p.next_channel m.pending_dial;
        } in
        let known : pending m1 ≡ some p.next_channel =
          get-insert ⦃eq = net.peer_id_equal⦄ peer_id peer_id p.next_channel m.pending_dial
          ∙ rw (same_refl ⦃eq = net.peer_id_equal⦄ peer_id) refl in
        let (over, is_told) = answered r (ok tt) m1 there awaits fresh refl known in
        inr (
          inr (
            vacant,
            gave,
            known,
            fresh,
            over,
            is_told,
            λ e. answered r (err (dial_error e)) m1 there awaits fresh refl known,
          ))

    entry-Dials :
        (r : Receivers) (next : ℕ) (o : Option ℕ)
        → p.received ≡ true
        → r.awaits p.next_channel ≡ true
        → IsWaiting m
        → pending m ≡ o
        → Dials r next (dial_entry net r peer_id peer_addr p.next_channel o m).1
    entry-Dials r next none there awaits fresh e =
        dialing-Dials r next _ _ there awaits fresh e refl
    entry-Dials r next (some other) there awaits fresh e =
        inl (other, e, e, told (outcome net p.next_channel none m) none there fresh refl)

    -- A dial to a peer, where the manager receives commands and the caller waits on a channel that
    -- nothing came on, sends one command, and one thing comes on the channel: where a dial to the
    -- peer is pending, that the channel is closed, and the other dial stays; where the swarm
    -- refuses, its error, and no dial is pending; and otherwise nothing while the dial is pending,
    -- and then that it is done if the connection is established next, or the error if it fails, and
    -- the dial is pending no more.
    pub dial_lem :
        (r : Receivers) (next : ℕ)
        → p.received ≡ true
        → r.awaits p.next_channel ≡ true
        → IsWaiting m
        → ((replies : Replies net (Unit {0})) → (dial net peer_id peer_addr replies p).1 ≡ sent)
          × Dials r next (handle_command net r command m).1
    unfolding handle_command
    dial_lem r next there awaits fresh =
        ((λ replies. sent_lem replies there), entry-Dials r next _ there awaits fresh refl)

-- ===== src/Provider/Received.antt =====
-- src/net/provider.rs and src/net/network.rs: what a caller finds on its channel, by what the
-- network manager made of the channels.
use simb.Prelude.{ℕ, ◌≡◌, List, [], ◌∷◌, ◌++◌, Option, none, some, if◌then◌else◌, ◌==◌, arith}
use simb.Interface.{Failures, Header}
use simb.Network.Swarm.{Libp2p}
use simb.Network.Messages.{Reply, unit_reply, headers_reply, peers_reply}
use simb.Network.Account.{tally}
use simb.Provider.{RequestResponse, Replies}

module _ {F : Failures} (net : Libp2p F) where
  -- What a channel of each type can carry.
  abbrev pub unit_of : Option (Reply net) → Option (RequestResponse net (Unit {0}))
  unit_of (some (unit_reply r)) = some r
  unit_of _ = none

  abbrev pub headers_of : Option (Reply net) → Option (RequestResponse net (List Header))
  headers_of (some (headers_reply r)) = some r
  headers_of _ = none

  abbrev pub peers_of : Option (Reply net) → Option (RequestResponse net (List net.PeerId))
  peers_of (some (peers_reply r)) = some r
  peers_of _ = none

  module _ {A : Type 0} (value_of : Option (Reply net) → Option (RequestResponse net A)) where
    -- What a channel received: the first thing that became of it.
    unfoldable pub received : List (ℕ × Option (Reply net)) → Replies net A
    received [] tx = none
    received ((tx', reply) ∷ rest) tx = if tx == tx' then value_of reply else received rest tx

    pub received-append :
        (xs : List (ℕ × Option (Reply net))) (tx : ℕ) (reply : Option (Reply net))
        → tally tx xs ≡ 0
        → received (xs ++ (tx, reply) ∷ []) tx ≡ value_of reply
    unfolding received tally
    received-append [] tx reply fresh = ground arith
    received-append (x ∷ xs) tx reply fresh = grind (arith, received-append xs tx reply)

-- ===== src/Interface/Providers.antt =====
-- src/interface.rs: the traits by which the parts of a node call its network. A call changes the
-- state of what provides it, and ends with what its future gives.
use simb.Prelude.{List, Str}
use simb.Prelude.Exec.{Exec}
use simb.Interface.{Header, Transaction, Block, HeadersRequest, Failures, RequestError}

pub record BodyRequest : Type 0 where
  pub hashes : List Str

module _ (F : Failures) (Self : Type 0) where
  -- A call that ends with a `RequestResponse`.
  abbrev pub Call : Type 0 → Type 0
  Call A = Exec Self (RequestError F) A

  pub record PeerProvider (PeerId : Type 0) : Type 0 where
    pub get_closest_peers : Call (List PeerId)

  pub record HeadersProvider (PeerId : Type 0) : Type 0 where
    pub get_headers : PeerId → HeadersRequest → Call (List Header)

  pub record BodyProvider : Type 0 where
    pub get_bodies : BodyRequest → Exec Self ⊥ (List Block)

  pub record BroadcastProvider : Type 0 where
    pub broadcast_block_header : Header → Call (Unit {0})
    pub broadcast_transactions : List Transaction → Call (Unit {0})

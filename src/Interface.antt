-- ===== src/Interface.antt =====
-- src/interface.rs: the data that the parts of the node exchange.
pub mod Providers
use simb.Prelude.{ℕ, ◌==◌, ◌≡◌, ◌↔◌, Bool, true, ◌&&◌, List, arith, Str, str_eq, str_eq_iff}

-- The numbers are the u64 fields of the program.
pub record Header : Type 0 where
  pub number : ℕ
  pub parent_hash : Str
  pub state_root : Str
  pub timestamp : ℕ
  pub nonce : ℕ
  pub hash : Str

-- The derived `PartialEq`.
unfoldable pub header_eq : Header → Header → Bool
header_eq a b =
    (a.number == b.number)
    && str_eq a.parent_hash b.parent_hash
    && str_eq a.state_root b.state_root
    && (a.timestamp == b.timestamp)
    && (a.nonce == b.nonce)
    && str_eq a.hash b.hash

pub header_eq_iff : (a b : Header) → (header_eq a b ≡ true) ↔ (a ≡ b)
unfolding header_eq
header_eq_iff a b = ground (
  arith,
  str_eq_iff a.parent_hash b.parent_hash,
  str_eq_iff a.state_root b.state_root,
  str_eq_iff a.hash b.hash,
)

pub record Transaction : Type 0 where
  pub hash : Str
  pub from : Str
  pub to : Str
  pub value : ℕ
  pub nonce : ℕ

pub record Block : Type 0 where
  pub header : Header
  pub transactions : List Transaction

pub record HeadersRequest : Type 0 where
  pub limit : ℕ
  pub start_block : ℕ

-- The failures of libp2p that a request may end with: types of that library.
pub record Failures : Type 1 where
  pub OutboundFailure : Type 0
  pub DialError : Type 0
  pub TransportError : Type 0
  pub PublishError : Type 0

pub data RequestError (F : Failures) : Type 0 where
  channel_closed : Str → RequestError F
  timeout : RequestError F
  outbound_failure : F.OutboundFailure → RequestError F
  dial_error : F.DialError → RequestError F
  transport_error : F.TransportError → RequestError F
  publish_error : F.PublishError → RequestError F

-- The two conversions from the errors of tokio's channels, by their texts.
abbrev pub from_channel_error : {F : Failures} → Str → RequestError F
from_channel_error e = channel_closed e

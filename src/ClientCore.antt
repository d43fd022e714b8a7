-- ===== src/ClientCore.antt =====
-- The messages between client and daemon (puncture-client-core/src/lib.rs), and the views of the
-- values of third-party types that they carry: what the daemon reads of an invoice, an offer or
-- an address, as fields.
use puncture.Common.{ℕ, String, Bool, Option}

-- lightning_invoice::Bolt11Invoice: `payment_hash()` in hex, `to_string()`, `description()`.
pub record Bolt11Invoice : Type 0 where
  pub payment_hash : String
  pub text : String
  pub description : String

-- lightning::offers::offer::Offer: `id()` in hex, `to_string()`, `description()`.
pub record Offer : Type 0 where
  pub id : String
  pub text : String
  pub description : Option String

pub record Payment : Type 0 where
  pub id : String
  pub payment_type : String
  pub is_live : Bool
  pub amount_msat : ℕ
  pub fee_msat : ℕ
  pub description : String
  pub status : String
  pub ln_address : Option String
  pub created_at : ℕ

pub record Balance : Type 0 where
  pub amount_msat : ℕ

pub record Update : Type 0 where
  pub id : String
  pub status : String
  pub fee_msat : ℕ

pub data AppEvent : Type 0 where
  balance : Balance → AppEvent
  payment : Payment → AppEvent
  update : Update → AppEvent

pub record RegisterRequest : Type 0 where
  pub invite_id : String

pub record RegisterResponse : Type 0 where
  pub network : String
  pub name : String

pub record Bolt11ReceiveRequest : Type 0 where
  pub amount_msat : ℕ
  pub description : String

pub record Bolt11SendRequest : Type 0 where
  pub invoice : Bolt11Invoice
  pub amount_msat : ℕ
  pub ln_address : Option String

pub record Bolt12SendRequest : Type 0 where
  pub offer : String
  pub amount_msat : ℕ

-- An address is its text.
pub record OnchainSendRequest : Type 0 where
  pub address : String
  pub amount_sats : ℕ

pub record SetRecoveryNameRequest : Type 0 where
  pub recovery_name : Option String

pub record RecoverRequest : Type 0 where
  pub recovery_id : String

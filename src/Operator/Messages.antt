-- ===== src/Operator/Messages.antt =====
-- puncture-cli-core/src/lib.rs: the requests and responses of the command line. A response of one
-- field is that field.
use puncture.Common.{ℕ, String, Bool, Option}

pub record BalancesResponse : Type 0 where
  pub total_onchain_balance_sats : ℕ
  pub total_inbound_capacity_msat : ℕ
  pub total_outbound_capacity_msat : ℕ

pub record OnchainSendRequest : Type 0 where
  pub address : String
  pub amount_sats : ℕ
  pub sats_per_vbyte : Option ℕ

pub record OnchainDrainRequest : Type 0 where
  pub address : String
  pub sats_per_vbyte : Option ℕ

pub record OpenChannelRequest : Type 0 where
  pub node_id : String
  pub socket_address : String
  pub channel_amount_sats : ℕ
  pub push_to_counterparty_msat : Option ℕ
  pub public : Bool

pub record CloseChannelRequest : Type 0 where
  pub user_channel_id : String
  pub counterparty_node_id : String
  pub force : Bool

pub record ChannelInfo : Type 0 where
  pub user_channel_id : String
  pub counterparty_node_id : String
  pub channel_value_sats : ℕ
  pub is_outbound : Bool
  pub outbound_capacity_msat : ℕ
  pub inbound_capacity_msat : ℕ
  pub is_channel_ready : Bool
  pub is_usable : Bool
  pub funding_txo : Option String
  pub confirmations : Option ℕ
  pub confirmations_required : Option ℕ

pub record RequestChannelRequest : Type 0 where
  pub lsp_balance_sat : ℕ
  pub client_balance_sat : ℕ
  pub channel_expiry_blocks : ℕ
  pub public : Bool

pub record ConnectPeerRequest : Type 0 where
  pub node_id : String
  pub socket_address : String
  pub persist : Bool

pub record PeerInfo : Type 0 where
  pub node_id : String
  pub address : String
  pub is_persisted : Bool
  pub is_connected : Bool

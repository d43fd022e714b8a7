-- ===== src/Operator.antt =====
-- What the operator does with the node: the state of the node as its library reports it, the calls
-- that change it, and the actions of the handlers, which end in a value, an error or a panic. The
-- answers of the node, of the parsers and of the liquidity provider's web interface are parameters.
pub mod Messages
pub mod Cli
pub mod Forms
pub mod Pages
pub mod Agreement
pub mod OpenedId
use puncture.Common.{ℕ, String, Bool, Option, none, some, List, [], ◌∷◌, ◌++◌, ◌==◌, if◌then◌else◌}
use puncture.Node.{Answer}

-- ldk_node::ChannelDetails: what the daemon reads of it. An id is the number, a node its hex.
pub record ChannelDetails : Type 0 where
  pub user_channel_id : ℕ
  pub counterparty_node_id : String
  pub channel_value_sats : ℕ
  pub outbound_capacity_msat : ℕ
  pub inbound_capacity_msat : ℕ
  pub is_channel_ready : Bool
  pub is_usable : Bool
  pub is_outbound : Bool
  pub funding_txo : Option String
  pub confirmations : Option ℕ
  pub confirmations_required : Option ℕ

-- ldk_node::PeerDetails
pub record PeerDetails : Type 0 where
  pub node_id : String
  pub address : String
  pub is_persisted : Bool
  pub is_connected : Bool

-- serde_json::Value: texts and objects, and what the daemon does not look into.
mutual
  pub data Json : Type 0 where
    text : String → Json
    object : Fields → Json
    rest : Json

  pub data Fields : Type 0 where
    end : Fields
    field : String → Json → Fields → Fields

abbrev find_field : String → Fields → Option Json
find_field key end = none
find_field key (field k v fs) = if k == key then some v else find_field key fs

-- `Value::get`, `Value::as_str`
abbrev pub get : String → Json → Option Json
get key (Json.text s) = none
get key (Json.object fs) = find_field key fs
get key Json.rest = none

abbrev pub as_str : Json → Option String
as_str (Json.text s) = some s
as_str (Json.object fs) = none
as_str Json.rest = none

-- The payload of an order of a channel; the fields that never change are left out.
pub record Order : Type 0 where
  pub lsp_balance_sat : String
  pub client_balance_sat : String
  pub channel_expiry_blocks : ℕ
  pub announce_channel : Bool
  pub public_key : String

-- reqwest::Response: whether its status is a success, and its body read as text or as JSON.
pub record OrderResponse : Type 0 where
  pub is_success : Bool
  pub text : Answer String
  pub json : Answer Json

-- The calls that act on the node or on the liquidity provider. A fee rate is `Option<FeeRate>`.
pub data OperatorCall : Type 0 where
  new_address : OperatorCall
  send_to_address : String → ℕ → Option ℕ → OperatorCall
  send_all_to_address : String → Option ℕ → OperatorCall
  open_announced_channel : String → String → ℕ → Option ℕ → OperatorCall
  open_channel : String → String → ℕ → Option ℕ → OperatorCall
  close_channel : ℕ → String → OperatorCall
  force_close_channel : ℕ → String → OperatorCall
  connect : String → String → Bool → OperatorCall
  disconnect : String → OperatorCall
  create_order : Order → OperatorCall

pub record OperatorNode : Type 0 where
  pub node_id : String
  pub total_onchain_balance_sats : ℕ
  pub list_channels : List ChannelDetails
  pub list_peers : List PeerDetails
  -- `Address::from_str`, and `require_network` with the network of the node
  pub parse_address : String → Answer String
  pub require_network : String → Answer String
  -- `PublicKey::from_str`, `SocketAddress::from_str`
  pub parse_public_key : String → Answer String
  pub parse_socket_address : String → Answer String
  -- `<[u8; 16]>::from_hex` with `u128::from_be_bytes`, and `to_be_bytes` with `as_hex`
  pub channel_id_from_hex : String → Answer ℕ
  pub channel_id_as_hex : ℕ → String
  -- `FeeRate::from_sat_per_vb_unchecked`
  pub fee_rate : ℕ → ℕ
  pub new_address : Answer String
  pub send_to_address : String → ℕ → Option ℕ → Answer String
  pub send_all_to_address : String → Option ℕ → Answer String
  pub open_announced_channel : String → String → ℕ → Option ℕ → Answer ℕ
  pub open_channel : String → String → ℕ → Option ℕ → Answer ℕ
  pub close_channel : ℕ → String → Answer (Unit {0})
  pub force_close_channel : ℕ → String → Answer (Unit {0})
  pub connect : String → String → Bool → Answer (Unit {0})
  pub disconnect : String → Answer (Unit {0})
  pub create_order : Order → Answer OrderResponse

-- How an action ends, where an error is an `E`.
pub data Ended (E A : Type 0) : Type 0 where
  done : A → Ended E A
  failed : E → Ended E A
  panicked : String → Ended E A

-- An action adds to the calls that were made, oldest first.
abbrev pub Act : Type 0 → Type 0 → Type 0
Act E A = List OperatorCall → Ended E A × List OperatorCall

abbrev go_on : {E A B : Type 0} → Ended E A → (A → Act E B) → Act E B
go_on (Ended.done a) f calls = f a calls
go_on (Ended.failed e) f calls = (Ended.failed e, calls)
go_on (Ended.panicked e) f calls = (Ended.panicked e, calls)

infixl 5 ◌>>=◌ ◌>>◌
abbrev pub ◌>>=◌ : {E A B : Type 0} → Act E A → (A → Act E B) → Act E B
◌>>=◌ m f calls = let (r, calls') = m calls in go_on r f calls'

abbrev pub ◌>>◌ : {E B : Type 0} → Act E (Unit {0}) → Act E B → Act E B
m >> k = m >>= λ _. k

module _ {E A : Type 0} where
  abbrev pub return : A → Act E A
  return a calls = (Ended.done a, calls)

  abbrev pub fail : E → Act E A
  fail e calls = (Ended.failed e, calls)

  -- `result.map_err(f)?`
  abbrev pub or_fail : (String → E) → Answer A → Act E A
  or_fail f (Answer.granted a) calls = (Ended.done a, calls)
  or_fail f (Answer.refused e) calls = (Ended.failed (f e), calls)

  -- `option.ok_or(e)?`
  abbrev pub some_or_fail : E → Option A → Act E A
  some_or_fail e none calls = (Ended.failed e, calls)
  some_or_fail e (some a) calls = (Ended.done a, calls)

  -- A call that acts, with its answer.
  abbrev pub calling : OperatorCall → (String → E) → Answer A → Act E A
  calling c f (Answer.granted a) calls = (Ended.done a, calls ++ c ∷ [])
  calling c f (Answer.refused e) calls = (Ended.failed (f e), calls ++ c ∷ [])

-- ===== src/Operator/Cli.antt =====
-- puncture-daemon/src/cli/rpc.rs (`ldk_…`): the handlers of the command line that pass through to
-- the node.
use puncture.Common.{
  ℕ, String, Bool, true, false, Option, none, some, List, [], ◌∷◌, map, filter, if◌then◌else◌,
}
use puncture.Common.Words.{sum64}
use puncture.Common.Text.{◌<>◌, decimal, decimal128}
use puncture.Node.{Answer}
use puncture.Operator.Messages.{
  BalancesResponse, OnchainSendRequest, OnchainDrainRequest, OpenChannelRequest,
  CloseChannelRequest, ChannelInfo, RequestChannelRequest, ConnectPeerRequest, PeerInfo,
}
use puncture.Operator.{
  ChannelDetails, PeerDetails, Json, get, as_str, Order, OrderResponse, OperatorCall, OperatorNode,
  Act, ◌>>=◌, ◌>>◌, return, fail, or_fail, some_or_fail, calling,
}

-- `CliError`, with its HTTP status.
pub record CliError : Type 0 where
  pub code : ℕ
  pub error : String

abbrev pub bad_request : String → CliError
bad_request error = record { code = 400; error = error }

abbrev pub internal : String → CliError
internal error = record { code = 500; error = error }

-- The liquidity provider that channels are requested of.
abbrev pub lsp_node_id : String
lsp_node_id = "038a9e56512ec98da2b5789761f7af8f280baf98a09282360cd6ff1381b5e889bf"

abbrev pub lsp_address : String
lsp_address = "64.23.162.51:9735"

-- `Option::and_then`
abbrev and_then : {A B : Type 0} → Option A → (A → Option B) → Option B
and_then none f = none
and_then (some a) f = f a

-- The text under `payment`, `bolt11`, `invoice` of a response.
abbrev pub invoice_of : Json → Option String
invoice_of response =
    and_then (and_then (and_then (get "payment" response) (get "bolt11")) (get "invoice")) as_str

-- `if !list_channels().is_empty() { return Err(…) }`
abbrev pub no_channels : {E : Type 0} → E → List ChannelDetails → Act E (Unit {0})
no_channels e [] = return tt
no_channels e (c ∷ channels) = fail e

-- `response.text().await.unwrap_or_else(|_| "Unknown error".to_string())`
abbrev pub error_body : Answer String → String
error_body (Answer.granted body) = body
error_body (Answer.refused e) = "Unknown error"

-- The invoice of the liquidity provider's answer to an order.
abbrev pub ordered : {E : Type 0} → (String → E) → (String → E) → OrderResponse → Act E String
ordered refuse broken response = do
  (if response.is_success
      then return tt
      else fail (refuse ("Megalith API error: " <> error_body response.text)))
  json ← or_fail (λ e. broken ("Failed to parse Megalith response: " <> e)) response.json
  some_or_fail (broken "Missing invoice in Megalith response") (invoice_of json)

module _ (node : OperatorNode) where
  unfoldable pub ldk_node_id : Act CliError String
  ldk_node_id = return node.node_id

  -- `.filter(|c| c.is_usable).map(…).sum::<u64>()`
  abbrev pub usable_capacity : (ChannelDetails → ℕ) → ℕ
  usable_capacity capacity =
      sum64 (map capacity (filter (λ (c : ChannelDetails). c.is_usable) node.list_channels))

  unfoldable pub ldk_balances : Act CliError BalancesResponse
  ldk_balances = return (record {
    total_onchain_balance_sats = node.total_onchain_balance_sats;
    total_inbound_capacity_msat = usable_capacity (λ c. c.inbound_capacity_msat);
    total_outbound_capacity_msat = usable_capacity (λ c. c.outbound_capacity_msat);
  })

  unfoldable pub ldk_onchain_receive : Act CliError String
  ldk_onchain_receive = calling OperatorCall.new_address internal node.new_address

  -- `request.sats_per_vbyte.map(FeeRate::from_sat_per_vb_unchecked)`
  abbrev pub rate : Option ℕ → Option ℕ
  rate none = none
  rate (some sats) = some (node.fee_rate sats)

  abbrev on_network : String → Act CliError String
  on_network address =
      or_fail (λ _. bad_request "Address is for a different network") (node.require_network address)

  unfoldable pub ldk_onchain_send : OnchainSendRequest → Act CliError String
  ldk_onchain_send request = do
    address ← on_network request.address
    let fee = rate request.sats_per_vbyte
    calling (OperatorCall.send_to_address address request.amount_sats fee) internal
        (node.send_to_address address request.amount_sats fee)

  unfoldable pub ldk_onchain_drain : OnchainDrainRequest → Act CliError String
  ldk_onchain_drain request = do
    no_channels (bad_request "You still have channels open") node.list_channels
    address ← on_network request.address
    let fee = rate request.sats_per_vbyte
    calling (OperatorCall.send_all_to_address address fee) internal
        (node.send_all_to_address address fee)

  -- The call, and its answer, for a channel that is announced or not.
  abbrev pub opening : Bool → String → String → ℕ → Option ℕ → OperatorCall × Answer ℕ
  opening true peer address sats push = (
    OperatorCall.open_announced_channel peer address sats push,
    node.open_announced_channel peer address sats push,
  )
  opening false peer address sats push =
      (OperatorCall.open_channel peer address sats push, node.open_channel peer address sats push)

  -- The id of the response is the number in decimal, `channel_id.0.to_string()`.
  unfoldable pub ldk_channel_open : OpenChannelRequest → Act CliError String
  ldk_channel_open request = do
    address ← or_fail bad_request (node.parse_socket_address request.socket_address)
    let (open_call, answer) =
        opening request.public request.node_id address request.channel_amount_sats
          request.push_to_counterparty_msat
    channel_id ← calling open_call internal answer
    return (decimal128 channel_id)

  abbrev pub closing : Bool → ℕ → String → OperatorCall × Answer (Unit {0})
  closing true channel_id peer =
      (OperatorCall.force_close_channel channel_id peer, node.force_close_channel channel_id peer)
  closing false channel_id peer =
      (OperatorCall.close_channel channel_id peer, node.close_channel channel_id peer)

  unfoldable pub ldk_channel_close : CloseChannelRequest → Act CliError (Unit {0})
  ldk_channel_close request = do
    channel_id ← or_fail bad_request (node.channel_id_from_hex request.user_channel_id)
    let (close_call, answer) = closing request.force channel_id request.counterparty_node_id
    calling close_call internal answer

  abbrev pub channel_info : ChannelDetails → ChannelInfo
  channel_info channel = record {
    user_channel_id = node.channel_id_as_hex channel.user_channel_id;
    counterparty_node_id = channel.counterparty_node_id;
    channel_value_sats = channel.channel_value_sats;
    is_outbound = channel.is_outbound;
    outbound_capacity_msat = channel.outbound_capacity_msat;
    inbound_capacity_msat = channel.inbound_capacity_msat;
    is_channel_ready = channel.is_channel_ready;
    is_usable = channel.is_usable;
    funding_txo = channel.funding_txo;
    confirmations = channel.confirmations;
    confirmations_required = channel.confirmations_required;
  }

  unfoldable pub ldk_channel_list : Act CliError (List ChannelInfo)
  ldk_channel_list = return (map channel_info node.list_channels)

  unfoldable pub ldk_channel_request : RequestChannelRequest → Act CliError String
  ldk_channel_request request = do
    calling (OperatorCall.connect lsp_node_id lsp_address true)
        (λ _. internal "Failed to connect to Megalith LSP node")
        (node.connect lsp_node_id lsp_address true)
    let order : Order = record {
      lsp_balance_sat = decimal request.lsp_balance_sat;
      client_balance_sat = decimal request.client_balance_sat;
      channel_expiry_blocks = request.channel_expiry_blocks;
      announce_channel = request.public;
      public_key = node.node_id;
    }
    response ←
        calling (OperatorCall.create_order order)
          (λ e. internal ("Failed to call Megalith API: " <> e)) (node.create_order order)
    ordered bad_request internal response

  unfoldable pub ldk_peer_connect : ConnectPeerRequest → Act CliError (Unit {0})
  ldk_peer_connect request = do
    address ← or_fail bad_request (node.parse_socket_address request.socket_address)
    calling (OperatorCall.connect request.node_id address request.persist) internal
        (node.connect request.node_id address request.persist)

  unfoldable pub ldk_peer_disconnect : String → Act CliError (Unit {0})
  ldk_peer_disconnect counterparty_node_id =
      calling (OperatorCall.disconnect counterparty_node_id) internal
        (node.disconnect counterparty_node_id)

  abbrev pub peer_info : PeerDetails → PeerInfo
  peer_info peer = record {
    node_id = peer.node_id;
    address = peer.address;
    is_persisted = peer.is_persisted;
    is_connected = peer.is_connected;
  }

  unfoldable pub ldk_peer_list : Act CliError (List PeerInfo)
  ldk_peer_list = return (map peer_info node.list_peers)

-- ===== src/Operator/Forms.antt =====
-- puncture-daemon/src/ui/lightning.rs and onchain.rs: the forms of the dashboard that act on the
-- node (`try_…`), and what the page shows afterwards (`…_submit`), which Dashboard draws.
use puncture.Common.{ℕ, String, Bool, true, none}
use puncture.Common.Text.{◌<>◌, decimal}
use puncture.Operator.{Ended, Order, OperatorCall, OperatorNode, Act, ◌>>=◌, ◌>>◌, or_fail, calling}
use puncture.Operator.Cli.{lsp_node_id, lsp_address, no_channels, opening, closing, ordered}

pub record OpenChannelForm : Type 0 where
  pub node_id : String
  pub socket_address : String
  pub channel_amount_sats : ℕ
  pub public : Bool

pub record RequestChannelForm : Type 0 where
  pub lsp_balance_sat : ℕ
  pub public : Bool

pub record CloseChannelForm : Type 0 where
  pub user_channel_id : String
  pub counterparty_node_id : String
  pub force : Bool

pub record ConnectPeerForm : Type 0 where
  pub node_id : String
  pub socket_address : String
  pub persist : Bool

pub record DisconnectPeerForm : Type 0 where
  pub counterparty_node_id : String

pub record OnchainSendForm : Type 0 where
  pub address : String
  pub amount_sats : ℕ

pub record OnchainDrainForm : Type 0 where
  pub address : String

-- What replaces a form: a message, a title with a message and a text to copy or follow, or the form
-- again with an error.
pub data Shown : Type 0 where
  success_message : String → Shown
  success_replacement : String → String → String → Shown
  form_again : String → Shown

-- `match try_…(&state, &form).await`
abbrev pub show : {A : Type 0} → (A → Shown) → Act String A → Act String Shown
show page act calls =
    let (r, calls') = act calls in
    (
      elim r [
        | Ended.done a ↦ Ended.done (page a)
        | Ended.failed e ↦ Ended.done (Shown.form_again e)
        | Ended.panicked e ↦ Ended.panicked e
      ],
      calls',
    )

-- The page that follows a payment on chain.
abbrev created : String → Shown
created txid =
    Shown.success_replacement "Transaction Created"
      "You can monitor the confirmation of the transaction on mempool.space:"
      ("https://mempool.space/tx/" <> txid)

module _ (node : OperatorNode) where
  -- `parse_node_id`, `parse_socket_address` of shared.rs
  abbrev pub parse_node_id : String → Act String String
  parse_node_id text = or_fail (λ _. "Invalid node ID format") (node.parse_public_key text)

  abbrev pub parse_socket_address : String → Act String String
  parse_socket_address text =
      or_fail (λ _. "Invalid socket address format") (node.parse_socket_address text)

  unfoldable pub try_open_channel : OpenChannelForm → Act String ℕ
  try_open_channel form = do
    node_id ← parse_node_id form.node_id
    address ← parse_socket_address form.socket_address
    let (open_call, answer) = opening node form.public node_id address form.channel_amount_sats none
    calling open_call (λ e. "Failed to open channel: " <> e) answer

  -- A failure to connect is ignored, `.ok()`.
  unfoldable pub try_request_channel : RequestChannelForm → Act String String
  try_request_channel form calls =
      let (_, calls') =
        calling {E = String} (OperatorCall.connect lsp_node_id lsp_address true)
          (λ _. "Failed to connect to Megalith LSP node")
          (node.connect lsp_node_id lsp_address true) calls in
      let order : Order = record {
        lsp_balance_sat = decimal form.lsp_balance_sat;
        client_balance_sat = "0";
        channel_expiry_blocks = 13140;
        announce_channel = form.public;
        public_key = node.node_id;
      } in
      (calling (OperatorCall.create_order order) (λ e. "Failed to call Megalith API: " <> e)
            (node.create_order order)
          >>= ordered (λ e. e) (λ e. e))
        calls'

  unfoldable pub try_connect_peer : ConnectPeerForm → Act String (Unit {0})
  try_connect_peer form = do
    node_id ← parse_node_id form.node_id
    address ← parse_socket_address form.socket_address
    calling (OperatorCall.connect node_id address form.persist)
        (λ e. "Failed to connect to peer: " <> e) (node.connect node_id address form.persist)

  unfoldable pub try_disconnect_peer : DisconnectPeerForm → Act String (Unit {0})
  try_disconnect_peer form = do
    node_id ← parse_node_id form.counterparty_node_id
    calling (OperatorCall.disconnect node_id) (λ e. "Failed to disconnect from peer: " <> e)
        (node.disconnect node_id)

  unfoldable pub try_close_channel : CloseChannelForm → Act String (Unit {0})
  try_close_channel form = do
    node_id ← parse_node_id form.counterparty_node_id
    channel_id ←
        or_fail (λ _. "Invalid channel ID format") (node.channel_id_from_hex form.user_channel_id)
    let (close_call, answer) = closing node form.force channel_id node_id
    calling close_call (λ e. "Failed to close channel: " <> e) answer

  abbrev checked_address : String → Act String String
  checked_address text = do
    unchecked ← or_fail (λ _. "Invalid address format") (node.parse_address text)
    or_fail (λ _. "Invalid address for network") (node.require_network unchecked)

  unfoldable pub try_send_bitcoin : OnchainSendForm → Act String String
  try_send_bitcoin form = do
    address ← checked_address form.address
    calling (OperatorCall.send_to_address address form.amount_sats none)
        (λ e. "Failed to send: " <> e) (node.send_to_address address form.amount_sats none)

  unfoldable pub try_drain_wallet : OnchainDrainForm → Act String String
  try_drain_wallet form = do
    address ← checked_address form.address
    no_channels "Cannot drain wallet while channels are open. Close all channels first."
        node.list_channels
    calling (OperatorCall.send_all_to_address address none) (λ e. "Failed to drain: " <> e)
        (node.send_all_to_address address none)

  unfoldable pub open_channel_submit : OpenChannelForm → Act String Shown
  open_channel_submit form =
      show (λ _. Shown.success_message "Channel opened!") (try_open_channel form)

  unfoldable pub request_channel_submit : RequestChannelForm → Act String Shown
  request_channel_submit form =
      show
        (Shown.success_replacement "Channel Requested"
          "Pay this Lightning invoice to open the channel:")
        (try_request_channel form)

  unfoldable pub close_channel_submit : CloseChannelForm → Act String Shown
  close_channel_submit form =
      show (λ _. Shown.success_message "Channel closed!") (try_close_channel form)

  unfoldable pub connect_peer_submit : ConnectPeerForm → Act String Shown
  connect_peer_submit form =
      show (λ _. Shown.success_message "Peer connected!") (try_connect_peer form)

  unfoldable pub disconnect_peer_submit : DisconnectPeerForm → Act String Shown
  disconnect_peer_submit form =
      show (λ _. Shown.success_message "Peer disconnected!") (try_disconnect_peer form)

  -- `.expect("Failed to generate new address")`
  unfoldable pub onchain_receive_submit : Act String Shown
  onchain_receive_submit calls =
      let (r, calls') =
        calling OperatorCall.new_address (λ e. "Failed to generate new address: " <> e)
          node.new_address calls in
      (
        elim r [
          | Ended.done address ↦ Ended.done (
              Shown.success_replacement "Address Generated" "Send Bitcoin to this address:" address)
          | Ended.failed e ↦ Ended.panicked e
          | Ended.panicked e ↦ Ended.panicked e
        ],
        calls',
      )

  unfoldable pub onchain_send_submit : OnchainSendForm → Act String Shown
  onchain_send_submit form = show created (try_send_bitcoin form)

  unfoldable pub onchain_drain_submit : OnchainDrainForm → Act String Shown
  onchain_drain_submit form = show created (try_drain_wallet form)

-- ===== src/Dashboard/Served/Pages.antt =====
-- The forms on the pages.
use puncture.Common.{ℕ, String, true, none, List, [], ◌∷◌, ◌≡◌, refl, Bool, false}
use puncture.Common.Outcome.{ok}
use puncture.Models.{Tables}
use puncture.Operator.{ChannelDetails, PeerDetails, OperatorNode}
use puncture.Operator.Pages.{ConfirmationStatus, StoredPayment, onchain_page}
use puncture.Admin.UiDb.{list_users}
use puncture.Operator.Pages.Lightning.{AllDrawable, lightning_page_shown}
use puncture.Admin.CliDb.{UserInfo}
use puncture.Html.{Markup}
use puncture.Html.Forms.{all_forms, all_forms-each}
use puncture.Dashboard.Router.{is_served}
use puncture.Dashboard.Shared.{copyable_hex_input, base_template}
use puncture.Dashboard.Lightning.{
  capacity_cards, channel_list, peer_list, lightning_content, lightning_sidebar, lightning_template,
  with_bars, lightning_html,
}
use puncture.Dashboard.Lightning.Channels.{
  channel_header, channel_table, close_accordion, channel_with, channel_item,
}
use puncture.Dashboard.Lightning.Peers.{
  badge, peer_header, peer_table, disconnect_accordion, peer_with, peer_item,
}
use puncture.Dashboard.Onchain.{
  onchain_sidebar, payment_list, onchain_content, onchain_template, onchain_html,
}
use puncture.Dashboard.Onchain.Payments.{status_badge, status_rows, payment_header, payment_item}
use puncture.Dashboard.Users.{
  users_sidebar, users_accordion, users_template, users_page, named_users,
}
use puncture.Dashboard.Users.Rows.{recovery_accordion, user_table, user_item}
use puncture.Dashboard.Served.{
  AllServed, open_channel_form-AllServed, request_channel_form-AllServed,
  connect_peer_form-AllServed, disconnect_peer_form-AllServed, close_channel_form-AllServed,
  receive_bitcoin_form-AllServed, send_bitcoin_form-AllServed, drain_wallet_form-AllServed,
  invite_form-AllServed, recovery_form_for_user-AllServed,
}

base_template-AllServed :
    (title path : String) (content sidebar : Markup)
    → AllServed content
    → AllServed sidebar
    → AllServed (base_template title path content sidebar)
unfolding all_forms base_template
base_template-AllServed title path content sidebar c s = rw (c, s) refl

pub channel_with-AllServed :
    (as_hex : ℕ → String) (i : ℕ) (channel : ChannelDetails) (percentage : ℕ) (form : Markup)
    → AllServed form
    → AllServed (channel_with as_hex i channel percentage form)
unfolding all_forms channel_with channel_header channel_table close_accordion copyable_hex_input
channel_with-AllServed as_hex i channel percentage form h = rw h refl

channel_item-AllServed :
    (as_hex : ℕ → String) (i : ℕ) (channel : ChannelDetails × ℕ)
    → AllServed (channel_item as_hex i channel)
unfolding channel_item
channel_item-AllServed as_hex i (channel, percentage) =
    channel_with-AllServed as_hex i channel percentage _ (
      close_channel_form-AllServed (as_hex channel.user_channel_id) channel.counterparty_node_id i
        none)

badge-AllServed : (connected : Bool) → AllServed (badge connected)
unfolding all_forms badge
badge-AllServed true = refl
badge-AllServed false = refl

peer_item-AllServed : (i : ℕ) (peer : PeerDetails) → AllServed (peer_item i peer)
unfolding all_forms peer_item peer_with peer_header peer_table disconnect_accordion
    copyable_hex_input
peer_item-AllServed i peer =
    rw (badge-AllServed peer.is_connected, disconnect_peer_form-AllServed peer.node_id none) refl

lightning_sidebar-AllServed : (node_id : String) → AllServed (lightning_sidebar node_id)
unfolding all_forms lightning_sidebar copyable_hex_input
lightning_sidebar-AllServed node_id =
    rw
      (
        open_channel_form-AllServed none,
        request_channel_form-AllServed none,
        connect_peer_form-AllServed none,
      )
      refl

channel_list-AllServed :
    (as_hex : ℕ → String) (channels : List (ChannelDetails × ℕ))
    → AllServed (channel_list as_hex channels)
unfolding all_forms channel_list
channel_list-AllServed as_hex [] = refl
channel_list-AllServed as_hex (first ∷ others) =
    all_forms-each is_served (channel_item as_hex) (channel_item-AllServed as_hex) 0
      (first ∷ others)

peer_list-AllServed : (peers : List PeerDetails) → AllServed (peer_list peers)
unfolding all_forms peer_list
peer_list-AllServed [] = refl
peer_list-AllServed (first ∷ others) =
    all_forms-each is_served peer_item peer_item-AllServed 0 (first ∷ others)

pub lightning_template-AllServed :
    (as_hex : ℕ → String) (node_id : String) (inbound_sats outbound_sats : ℕ)
    (channels : List (ChannelDetails × ℕ)) (peers : List PeerDetails)
    → AllServed (lightning_template as_hex node_id inbound_sats outbound_sats channels peers)
unfolding all_forms lightning_template lightning_content capacity_cards
lightning_template-AllServed as_hex node_id inbound_sats outbound_sats channels peers =
    base_template-AllServed "Lightning" "/lightning" _ _
      (rw (channel_list-AllServed as_hex channels, peer_list-AllServed peers) refl)
      (lightning_sidebar-AllServed node_id)

status_badge-AllServed : (status : ConfirmationStatus) → AllServed (status_badge status)
unfolding all_forms status_badge
status_badge-AllServed (ConfirmationStatus.confirmed hash height timestamp) = refl
status_badge-AllServed ConfirmationStatus.unconfirmed = refl

onchain_sidebar-AllServed : AllServed onchain_sidebar
unfolding all_forms onchain_sidebar
onchain_sidebar-AllServed =
    rw
      (
        receive_bitcoin_form-AllServed,
        send_bitcoin_form-AllServed none,
        drain_wallet_form-AllServed none,
      )
      refl

module _ (format_timestamp : ℕ → String) where
  status_rows-AllServed :
      (status : ConfirmationStatus) → AllServed (status_rows format_timestamp status)
  unfolding all_forms status_rows copyable_hex_input
  status_rows-AllServed (ConfirmationStatus.confirmed hash height timestamp) = refl
  status_rows-AllServed ConfirmationStatus.unconfirmed = refl

  payment_item-AllServed :
      (i : ℕ) (payment : String × ConfirmationStatus)
      → AllServed (payment_item format_timestamp i payment)
  unfolding all_forms payment_item payment_header copyable_hex_input
  payment_item-AllServed i (txid, status) =
      rw (status_badge-AllServed status, status_rows-AllServed status) refl

  payment_list-AllServed :
      (payments : List (String × ConfirmationStatus))
      → AllServed (payment_list format_timestamp payments)
  unfolding all_forms payment_list
  payment_list-AllServed [] = refl
  payment_list-AllServed (first ∷ others) =
      all_forms-each is_served (payment_item format_timestamp) payment_item-AllServed 0
        (first ∷ others)

  pub onchain_template-AllServed :
      (onchain_balance : ℕ) (payments : List (String × ConfirmationStatus))
      → AllServed (onchain_template format_timestamp onchain_balance payments)
  unfolding all_forms onchain_template onchain_content
  onchain_template-AllServed onchain_balance payments =
      base_template-AllServed "Onchain" "/onchain" _ _ (rw (payment_list-AllServed payments) refl)
        onchain_sidebar-AllServed

  user_item-AllServed : (i : ℕ) (user : UserInfo) → AllServed (user_item format_timestamp i user)
  unfolding all_forms user_item user_table recovery_accordion copyable_hex_input
  user_item-AllServed i user = rw (recovery_form_for_user-AllServed user.user_pk i) refl

  users_accordion-AllServed :
      (users : List UserInfo) → AllServed (users_accordion format_timestamp users)
  unfolding all_forms users_accordion
  users_accordion-AllServed [] = refl
  users_accordion-AllServed (first ∷ others) =
      all_forms-each is_served (user_item format_timestamp) user_item-AllServed 0 (first ∷ others)

  pub users_template-AllServed :
      (users : List UserInfo) → AllServed (users_template format_timestamp users)
  unfolding all_forms users_template users_sidebar
  users_template-AllServed users =
      base_template-AllServed "Users" "/users" _ _ (users_accordion-AllServed users)
        (rw invite_form-AllServed refl)

  -- Where each channel can carry something, and a hundred times as much fits 64 bits, the page of the
  -- channels is drawn. Each form on it, on the page of the wallet and on that of the users posts to a
  -- route of the dashboard whose handler reads just the inputs that the form sends: in order, of the
  -- same names and types, where a field without a default is always sent.
  pub page_forms_served :
      (node : OperatorNode) (payments : List StoredPayment) (db : Tables)
      → AllDrawable node.list_channels
      → ((page : Markup) × (lightning_html node ≡ ok page) × AllServed page)
        × AllServed (onchain_html format_timestamp node payments)
        × AllServed (users_page format_timestamp db)
  unfolding lightning_html onchain_html users_page
  page_forms_served node payments db drawable =
      let (page, same, _, _) = lightning_page_shown node drawable in
      (
        rw same (
          _,
          refl,
          lightning_template-AllServed node.channel_id_as_hex page.node_id page.inbound_sats
              page.outbound_sats (with_bars node.list_channels page.bars) page.peers,
        ),
        onchain_template-AllServed node.total_onchain_balance_sats (onchain_page payments),
        users_template-AllServed (named_users (list_users db)),
      )

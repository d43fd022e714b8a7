-- ===== src/Dashboard/Resolved.antt =====
-- Every reference on the dashboard's pages names an element of the same page.
pub mod Lightning
use text.Mathlib.TextLemmas.{append_assoc}
use puncture.Common.{ℕ, String, List, [], ◌∷◌, ◌++◌, ◌≡◌, refl, sym}
use puncture.Common.Outcome.{ok}
use puncture.Common.Text.{◌<>◌, decimal}
use puncture.Models.{Tables}
use puncture.Operator.{OperatorNode}
use puncture.Operator.Pages.{ConfirmationStatus, StoredPayment, onchain_page}
use puncture.Operator.Pages.Lightning.{AllDrawable, lightning_page_shown}
use puncture.Admin.CliDb.{UserInfo}
use puncture.Admin.UiDb.{list_users}
use puncture.Html.{Markup}
use puncture.Html.References.{ids_of, references_of, this, later, Closed, Closed-each, Closed-seq}
use puncture.Dashboard.Shared.{copyable_hex_input}
use puncture.Dashboard.Lightning.{with_bars, lightning_html}
use puncture.Dashboard.Onchain.{
  onchain_sidebar, payment_list, onchain_content, onchain_template, onchain_html,
}
use puncture.Dashboard.Onchain.Forms.{receive_bitcoin_form, send_bitcoin_form, drain_wallet_form}
use puncture.Dashboard.Onchain.Payments.{status_badge, status_rows, payment_header, payment_item}
use puncture.Dashboard.Users.{
  users_sidebar, users_accordion, users_template, users_page, named_users,
}
use puncture.Dashboard.Users.Forms.{invite_form, recovery_form_for_user}
use puncture.Dashboard.Users.Rows.{recovery_accordion, user_table, user_item}
use Lightning.{base_template-Closed, lightning_template-Closed}

onchain_sidebar-Closed : Closed [] onchain_sidebar
unfolding ids_of references_of onchain_sidebar receive_bitcoin_form send_bitcoin_form
    drain_wallet_form
onchain_sidebar-Closed = search (this, later) depth 14

users_sidebar-Closed : Closed [] users_sidebar
unfolding ids_of references_of users_sidebar invite_form
users_sidebar-Closed = search (this, later) depth 14

module _ (format_timestamp : ℕ → String) where
  payment_item-Closed :
      (i : ℕ) (payment : String × ConfirmationStatus)
      → Closed ("paymentsAccordion" ∷ []) (payment_item format_timestamp i payment)
  unfolding ids_of references_of payment_item payment_header status_badge status_rows
      copyable_hex_input
  payment_item-Closed i (txid, ConfirmationStatus.confirmed hash height timestamp) =
      search (this, later, sym (append_assoc "#" "payment-" (decimal i)))
  payment_item-Closed i (txid, ConfirmationStatus.unconfirmed) =
      search (this, later, sym (append_assoc "#" "payment-" (decimal i)))

  payment_list-Closed :
      (payments : List (String × ConfirmationStatus))
      → Closed [] (payment_list format_timestamp payments)
  unfolding ids_of references_of payment_list
  payment_list-Closed [] = tt
  payment_list-Closed (first ∷ others) =
      Closed-each ("paymentsAccordion" ∷ []) (payment_item format_timestamp) payment_item-Closed 0
        (first ∷ others)

  onchain_template-Closed :
      (onchain_balance : ℕ) (payments : List (String × ConfirmationStatus))
      → Closed [] (onchain_template format_timestamp onchain_balance payments)
  unfolding ids_of references_of onchain_template onchain_content
  onchain_template-Closed onchain_balance payments =
      base_template-Closed "Onchain" "/onchain" _ onchain_sidebar (payment_list-Closed payments)
        onchain_sidebar-Closed

  user_item-Closed :
      (i : ℕ) (user : UserInfo) → Closed ("usersAccordion" ∷ []) (user_item format_timestamp i user)
  unfolding ids_of references_of user_item user_table recovery_accordion copyable_hex_input
      recovery_form_for_user
  user_item-Closed i user = search (
    this,
    later,
    sym (append_assoc "#" "user-" (decimal i)),
    sym (append_assoc "#" "recoveryCollapse-" (decimal i)),
    sym (append_assoc "#" "recoveryAccordion-" (decimal i)),
  )

  users_accordion-Closed :
      (users : List UserInfo) → Closed [] (users_accordion format_timestamp users)
  unfolding ids_of references_of users_accordion
  users_accordion-Closed [] = tt
  users_accordion-Closed (first ∷ others) =
      Closed-each ("usersAccordion" ∷ []) (user_item format_timestamp) user_item-Closed 0
        (first ∷ others)

  -- Where each channel can carry something, and a hundred times as much fits 64 bits, the page of the
  -- channels is drawn. On it, on the page of the wallet and on that of the users, each part that a
  -- button opens or controls, each parent that a part names, and each control that a label names is an
  -- element of the page.
  pub references_resolve :
      (node : OperatorNode) (payments : List StoredPayment) (db : Tables)
      → AllDrawable node.list_channels
      → ((page : Markup) × (lightning_html node ≡ ok page) × Closed [] page)
        × Closed [] (onchain_html format_timestamp node payments)
        × Closed [] (users_page format_timestamp db)
  unfolding lightning_html onchain_html users_page users_template
  references_resolve node payments db drawable =
      let (page, same, _, _) = lightning_page_shown node drawable in
      (
        rw same (
          _,
          refl,
          lightning_template-Closed node.channel_id_as_hex page.node_id page.inbound_sats
              page.outbound_sats (with_bars node.list_channels page.bars) page.peers,
        ),
        onchain_template-Closed node.total_onchain_balance_sats (onchain_page payments),
        base_template-Closed "Users" "/users" _ users_sidebar
            (users_accordion-Closed (named_users (list_users db))) users_sidebar-Closed,
      )

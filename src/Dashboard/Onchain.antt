-- ===== src/Dashboard/Onchain.antt =====
-- puncture-daemon/src/ui/onchain.rs: `onchain_template`, the page of the wallet, and what
-- `onchain_page` answers.
pub mod Forms
pub mod Payments
use puncture.Common.{ℕ, String, none, List, [], ◌∷◌}
use puncture.Operator.{OperatorNode}
use puncture.Operator.Pages.{ConfirmationStatus, StoredPayment, onchain_page}
use puncture.Html.{Markup, ◌⋄◌, plain, classed, each}
use puncture.Dashboard.Sats.{format_sats}
use puncture.Dashboard.Shared.{base_template}
use Forms.{receive_bitcoin_form, send_bitcoin_form, drain_wallet_form}
use Payments.{payment_item}

unfoldable pub onchain_sidebar : Markup
onchain_sidebar = Markup.element "div" (("class", "accordion") ∷ ("id", "actionsAccordion") ∷ []) (
    classed "div" "accordion-item" (
      classed "h2" "accordion-header" (
        Markup.element "button"
          (("class", "accordion-button collapsed")
            ∷ ("type", "button")
            ∷ ("data-bs-toggle", "collapse")
            ∷ ("data-bs-target", "#receiveCollapse")
            ∷ ("aria-expanded", "false")
            ∷ ("aria-controls", "receiveCollapse")
            ∷ [])
          (Markup.escaped "Receive Bitcoin"))
      ⋄ Markup.element "div"
          (("id", "receiveCollapse")
            ∷ ("class", "accordion-collapse collapse")
            ∷ ("data-bs-parent", "#actionsAccordion")
            ∷ [])
          (classed "div" "accordion-body" receive_bitcoin_form))
    ⋄ classed "div" "accordion-item" (
        classed "h2" "accordion-header" (
          Markup.element "button"
            (("class", "accordion-button collapsed")
              ∷ ("type", "button")
              ∷ ("data-bs-toggle", "collapse")
              ∷ ("data-bs-target", "#sendCollapse")
              ∷ ("aria-expanded", "false")
              ∷ ("aria-controls", "sendCollapse")
              ∷ [])
            (Markup.escaped "Send Bitcoin"))
        ⋄ Markup.element "div"
            (("id", "sendCollapse")
              ∷ ("class", "accordion-collapse collapse")
              ∷ ("data-bs-parent", "#actionsAccordion")
              ∷ [])
            (classed "div" "accordion-body" (send_bitcoin_form none)))
    ⋄ classed "div" "accordion-item" (
        classed "h2" "accordion-header" (
          Markup.element "button"
            (("class", "accordion-button collapsed")
              ∷ ("type", "button")
              ∷ ("data-bs-toggle", "collapse")
              ∷ ("data-bs-target", "#drainCollapse")
              ∷ ("aria-expanded", "false")
              ∷ ("aria-controls", "drainCollapse")
              ∷ [])
            (Markup.escaped "Drain Wallet"))
        ⋄ Markup.element "div"
            (("id", "drainCollapse")
              ∷ ("class", "accordion-collapse collapse")
              ∷ ("data-bs-parent", "#actionsAccordion")
              ∷ [])
            (classed "div" "accordion-body" (drain_wallet_form none))))

module _ (format_timestamp : ℕ → String) where
  unfoldable pub payment_list : List (String × ConfirmationStatus) → Markup
  payment_list [] = Markup.empty
  payment_list (first ∷ others) =
      let payments = first ∷ others in
      classed "div" "col-12" (
        classed "div" "card h-100 overflow-hidden" (
          classed "div" "card-body" (
            classed "h5" "card-title" (Markup.escaped "Onchain Transactions")
            ⋄ Markup.element "div" (("class", "accordion") ∷ ("id", "paymentsAccordion") ∷ [])
                (each (payment_item format_timestamp) 0 payments))))

  unfoldable pub onchain_content : ℕ → List (String × ConfirmationStatus) → Markup
  onchain_content onchain_balance payments = classed "div" "row g-4" (
      classed "div" "col-12" (
        classed "div" "card h-100 overflow-hidden" (
          classed "div" "card-body" (
            classed "h5" "card-title" (Markup.escaped "Onchain Balance")
            ⋄ classed "p" "card-text display-6"
                (Markup.escaped (format_sats onchain_balance) ⋄ Markup.escaped " ₿"))))
      ⋄ (payment_list payments))

  unfoldable pub onchain_template : ℕ → List (String × ConfirmationStatus) → Markup
  onchain_template onchain_balance payments =
      base_template "Onchain" "/onchain" (onchain_content onchain_balance payments) onchain_sidebar

  unfoldable pub onchain_html : OperatorNode → List StoredPayment → Markup
  onchain_html node payments =
      onchain_template node.total_onchain_balance_sats (onchain_page payments)

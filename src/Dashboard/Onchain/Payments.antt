-- ===== src/Dashboard/Onchain/Payments.antt =====
-- puncture-daemon/src/ui/onchain.rs: a payment on the page, with its index. The parameter
-- `format_timestamp` is that of shared.rs, which writes the date of an instant in milliseconds.
use Prim.Native.String.{slice}
use puncture.Common.{ℕ, String, none, [], ◌∷◌}
use puncture.Common.Text.{◌<>◌, decimal}
use puncture.Common.Words.{mul64}
use puncture.Operator.Pages.{ConfirmationStatus}
use puncture.Html.{Markup, ◌⋄◌, plain, classed}
use puncture.Dashboard.Shared.{copyable_hex_input}

unfoldable pub status_badge : ConfirmationStatus → Markup
status_badge (ConfirmationStatus.confirmed block_hash height timestamp) =
    classed "span" "badge bg-success ms-auto" (Markup.escaped "Confirmed")
status_badge ConfirmationStatus.unconfirmed =
    classed "span" "badge bg-warning ms-auto" (Markup.escaped "Pending")

-- A transaction id has 64 digits, so that the slice of its first 16 does not panic.
unfoldable pub payment_header : ℕ → String → ConfirmationStatus → Markup
payment_header i txid status = classed "h2" "accordion-header" (
    Markup.element "button"
      (("class", "accordion-button collapsed")
        ∷ ("type", "button")
        ∷ ("data-bs-toggle", "collapse")
        ∷ ("data-bs-target", ("#payment-" <> decimal i))
        ∷ ("aria-expanded", "false")
        ∷ ("aria-controls", ("payment-" <> decimal i))
        ∷ [])
      (classed "div" "d-flex align-items-center w-100 me-3" (
        classed "div" "me-3 font-monospace small"
          (Markup.escaped (slice txid 0 16) ⋄ Markup.escaped "...")
        ⋄ (status_badge status))))

module _ (format_timestamp : ℕ → String) where
  unfoldable pub status_rows : ConfirmationStatus → Markup
  status_rows (ConfirmationStatus.confirmed block_hash height timestamp) =
      plain "tr" (
        classed "td" "fw-bold" (Markup.escaped "Block Height")
        ⋄ plain "td" (Markup.escaped (decimal height)))
      ⋄ plain "tr" (
          classed "td" "fw-bold" (Markup.escaped "Block Hash")
          ⋄ Markup.element "td" (("style", "width: 100%; min-width: 0;") ∷ [])
              (copyable_hex_input block_hash none))
      ⋄ plain "tr" (
          classed "td" "fw-bold" (Markup.escaped "Timestamp")
          ⋄ classed "td" "text-muted font-monospace"
              (Markup.escaped (format_timestamp (mul64 timestamp 1000))))
  status_rows ConfirmationStatus.unconfirmed = Markup.empty

  unfoldable pub payment_item : ℕ → String × ConfirmationStatus → Markup
  payment_item i (txid, status) = classed "div" "accordion-item" (
      (payment_header i txid status)
      ⋄ Markup.element "div"
          (("id", ("payment-" <> decimal i))
            ∷ ("class", "accordion-collapse collapse")
            ∷ ("data-bs-parent", "#paymentsAccordion")
            ∷ [])
          (classed "div" "accordion-body" (
            classed "table" "table table-sm table-borderless mb-3" (
              plain "tbody" (
                plain "tr" (
                  Markup.element "td"
                    (("class", "fw-bold") ∷ ("style", "width: 1px; white-space: nowrap;") ∷ [])
                    (Markup.escaped "Transaction ID")
                  ⋄ Markup.element "td" (("style", "width: 100%; min-width: 0;") ∷ [])
                      (copyable_hex_input txid none))
                ⋄ (status_rows status)))
            ⋄ classed "div" "d-flex justify-content-end" (
                Markup.element "a"
                  (("href", ("https://mempool.space/tx/" <> txid))
                    ∷ ("target", "_blank")
                    ∷ ("class", "btn btn-outline-primary btn-sm")
                    ∷ [])
                  (Markup.escaped "mempool.space")))))

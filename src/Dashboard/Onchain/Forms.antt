-- ===== src/Dashboard/Onchain/Forms.antt =====
-- puncture-daemon/src/ui/onchain.rs: the forms that act on the wallet.
use puncture.Common.{String, Option, [], ◌∷◌}
use puncture.Html.{Markup, ◌⋄◌, classed, if_some}

unfoldable pub receive_bitcoin_form : Markup
receive_bitcoin_form =
    Markup.element "form"
      (("hx-post", "/onchain/receive") ∷ ("hx-target", "this") ∷ ("hx-swap", "outerHTML") ∷ [])
      (Markup.element "button"
        (("type", "submit") ∷ ("class", "btn btn-outline-primary w-100") ∷ [])
        (Markup.escaped "Generate Address"))

unfoldable pub send_bitcoin_form : Option String → Markup
send_bitcoin_form error =
    Markup.element "form"
      (("hx-post", "/onchain/send") ∷ ("hx-target", "this") ∷ ("hx-swap", "outerHTML") ∷ [])
      (if_some error (λ err. classed "div" "alert alert-danger" (Markup.escaped err))
        ⋄ classed "div" "mb-3" (
            Markup.element "label" (("for", "accordion-address") ∷ ("class", "form-label") ∷ [])
              (Markup.escaped "Bitcoin Address")
            ⋄ Markup.element "input"
                (("type", "text")
                  ∷ ("class", "form-control font-monospace")
                  ∷ ("id", "accordion-address")
                  ∷ ("name", "address")
                  ∷ ("required", "")
                  ∷ ("placeholder", "bc1qxxx...")
                  ∷ [])
                Markup.empty
            ⋄ classed "div" "form-text" (Markup.escaped "Enter the destination Bitcoin address"))
        ⋄ classed "div" "mb-3" (
            Markup.element "label" (("for", "accordion-amount") ∷ ("class", "form-label") ∷ [])
              (Markup.escaped "Amount (sats)")
            ⋄ Markup.element "input"
                (("type", "number")
                  ∷ ("class", "form-control")
                  ∷ ("id", "accordion-amount")
                  ∷ ("name", "amount_sats")
                  ∷ ("required", "")
                  ∷ ("placeholder", "100000")
                  ∷ ("min", "1")
                  ∷ [])
                Markup.empty
            ⋄ classed "div" "form-text" (Markup.escaped "Amount to send in satoshis"))
        ⋄ Markup.element "button"
            (("type", "submit") ∷ ("class", "btn btn-outline-primary w-100") ∷ [])
            (Markup.escaped "Send Bitcoin"))

unfoldable pub drain_wallet_form : Option String → Markup
drain_wallet_form error =
    Markup.element "form"
      (("hx-post", "/onchain/drain") ∷ ("hx-target", "this") ∷ ("hx-swap", "outerHTML") ∷ [])
      (if_some error (λ err. classed "div" "alert alert-danger" (Markup.escaped err))
        ⋄ classed "div" "mb-3" (
            Markup.element "label"
              (("for", "accordion-drain-address") ∷ ("class", "form-label") ∷ [])
              (Markup.escaped "Destination Address")
            ⋄ Markup.element "input"
                (("type", "text")
                  ∷ ("class", "form-control font-monospace")
                  ∷ ("id", "accordion-drain-address")
                  ∷ ("name", "address")
                  ∷ ("required", "")
                  ∷ ("placeholder", "bc1q...")
                  ∷ [])
                Markup.empty)
        ⋄ Markup.element "button"
            (("type", "submit") ∷ ("class", "btn btn-outline-primary w-100") ∷ [])
            (Markup.escaped "Drain Wallet"))

-- ===== src/Dashboard/Lightning/Forms.antt =====
-- puncture-daemon/src/ui/lightning.rs: the forms that act on channels and peers.
use puncture.Common.{ℕ, String, Option, [], ◌∷◌}
use puncture.Common.Text.{◌<>◌, decimal}
use puncture.Html.{Markup, ◌⋄◌, classed, if_some}

unfoldable pub open_channel_form : Option String → Markup
open_channel_form error =
    Markup.element "form"
      (("hx-post", "/lightning/channel/open")
        ∷ ("hx-target", "this")
        ∷ ("hx-swap", "outerHTML")
        ∷ [])
      (if_some error (λ err. classed "div" "alert alert-danger" (Markup.escaped err))
        ⋄ classed "div" "mb-3" (
            Markup.element "label" (("for", "open-node-id") ∷ ("class", "form-label") ∷ [])
              (Markup.escaped "Node ID")
            ⋄ Markup.element "input"
                (("type", "text")
                  ∷ ("class", "form-control font-monospace")
                  ∷ ("id", "open-node-id")
                  ∷ ("name", "node_id")
                  ∷ ("required", "")
                  ∷ ("placeholder", "03...")
                  ∷ [])
                Markup.empty)
        ⋄ classed "div" "mb-3" (
            Markup.element "label" (("for", "open-address") ∷ ("class", "form-label") ∷ [])
              (Markup.escaped "Address")
            ⋄ Markup.element "input"
                (("type", "text")
                  ∷ ("class", "form-control")
                  ∷ ("id", "open-address")
                  ∷ ("name", "socket_address")
                  ∷ ("required", "")
                  ∷ ("placeholder", "host:port")
                  ∷ [])
                Markup.empty)
        ⋄ classed "div" "mb-3" (
            Markup.element "label" (("for", "open-amount") ∷ ("class", "form-label") ∷ [])
              (Markup.escaped "Amount (sats)")
            ⋄ Markup.element "input"
                (("type", "number")
                  ∷ ("class", "form-control")
                  ∷ ("id", "open-amount")
                  ∷ ("name", "channel_amount_sats")
                  ∷ ("required", "")
                  ∷ ("placeholder", "1000000")
                  ∷ [])
                Markup.empty)
        ⋄ classed "div" "mb-3" (
            classed "div" "form-check" (
              Markup.element "input"
                (("class", "form-check-input")
                  ∷ ("type", "checkbox")
                  ∷ ("id", "open-public")
                  ∷ ("name", "public")
                  ∷ ("value", "true")
                  ∷ [])
                Markup.empty
              ⋄ Markup.element "label" (("class", "form-check-label") ∷ ("for", "open-public") ∷ [])
                  (Markup.escaped "Public Channel")))
        ⋄ Markup.element "button"
            (("type", "submit") ∷ ("class", "btn btn-outline-primary w-100") ∷ [])
            (Markup.escaped "Open Channel"))

unfoldable pub request_channel_form : Option String → Markup
request_channel_form error =
    Markup.element "form"
      (("hx-post", "/lightning/channel/request")
        ∷ ("hx-target", "this")
        ∷ ("hx-swap", "outerHTML")
        ∷ [])
      (if_some error (λ err. classed "div" "alert alert-danger" (Markup.escaped err))
        ⋄ classed "div" "mb-3" (
            Markup.element "label" (("for", "request-amount") ∷ ("class", "form-label") ∷ [])
              (Markup.escaped "Amount (sats)")
            ⋄ Markup.element "input"
                (("type", "number")
                  ∷ ("class", "form-control")
                  ∷ ("id", "request-amount")
                  ∷ ("name", "lsp_balance_sat")
                  ∷ ("required", "")
                  ∷ ("placeholder", "1000000")
                  ∷ [])
                Markup.empty)
        ⋄ classed "div" "mb-3" (
            classed "div" "form-check" (
              Markup.element "input"
                (("class", "form-check-input")
                  ∷ ("type", "checkbox")
                  ∷ ("id", "request-public")
                  ∷ ("name", "public")
                  ∷ ("value", "true")
                  ∷ [])
                Markup.empty
              ⋄ Markup.element "label"
                  (("class", "form-check-label") ∷ ("for", "request-public") ∷ [])
                  (Markup.escaped "Public Channel")))
        ⋄ Markup.element "button"
            (("type", "submit") ∷ ("class", "btn btn-outline-primary w-100") ∷ [])
            (Markup.escaped "Request Channel"))

unfoldable pub connect_peer_form : Option String → Markup
connect_peer_form error =
    Markup.element "form"
      (("hx-post", "/lightning/peer/connect")
        ∷ ("hx-target", "this")
        ∷ ("hx-swap", "outerHTML")
        ∷ [])
      (if_some error (λ err. classed "div" "alert alert-danger" (Markup.escaped err))
        ⋄ classed "div" "mb-3" (
            Markup.element "label" (("for", "connect-node-id") ∷ ("class", "form-label") ∷ [])
              (Markup.escaped "Node ID")
            ⋄ Markup.element "input"
                (("type", "text")
                  ∷ ("class", "form-control font-monospace")
                  ∷ ("id", "connect-node-id")
                  ∷ ("name", "node_id")
                  ∷ ("required", "")
                  ∷ ("placeholder", "03...")
                  ∷ [])
                Markup.empty)
        ⋄ classed "div" "mb-3" (
            Markup.element "label" (("for", "connect-address") ∷ ("class", "form-label") ∷ [])
              (Markup.escaped "Address")
            ⋄ Markup.element "input"
                (("type", "text")
                  ∷ ("class", "form-control")
                  ∷ ("id", "connect-address")
                  ∷ ("name", "socket_address")
                  ∷ ("required", "")
                  ∷ ("placeholder", "host:port")
                  ∷ [])
                Markup.empty)
        ⋄ classed "div" "mb-3" (
            classed "div" "form-check" (
              Markup.element "input"
                (("class", "form-check-input")
                  ∷ ("type", "checkbox")
                  ∷ ("id", "persist-connection")
                  ∷ ("name", "persist")
                  ∷ ("value", "true")
                  ∷ [])
                Markup.empty
              ⋄ Markup.element "label"
                  (("class", "form-check-label") ∷ ("for", "persist-connection") ∷ [])
                  (Markup.escaped "Persist Connection")))
        ⋄ Markup.element "button"
            (("type", "submit") ∷ ("class", "btn btn-outline-primary w-100") ∷ [])
            (Markup.escaped "Connect Peer"))

unfoldable pub disconnect_peer_form : String → Option String → Markup
disconnect_peer_form counterparty_node_id error =
    Markup.element "form"
      (("hx-post", "/lightning/peer/disconnect")
        ∷ ("hx-target", "this")
        ∷ ("hx-swap", "outerHTML")
        ∷ [])
      (if_some error (λ err. classed "div" "alert alert-danger" (Markup.escaped err))
        ⋄ Markup.element "input"
            (("type", "hidden")
              ∷ ("name", "counterparty_node_id")
              ∷ ("value", counterparty_node_id)
              ∷ [])
            Markup.empty
        ⋄ Markup.element "button"
            (("type", "submit") ∷ ("class", "btn btn-outline-danger w-100") ∷ [])
            (Markup.escaped "Disconnect"))

unfoldable pub close_channel_form : String → String → ℕ → Option String → Markup
close_channel_form user_channel_id counterparty_node_id index error =
    Markup.element "form"
      (("hx-post", "/lightning/channel/close")
        ∷ ("hx-target", "this")
        ∷ ("hx-swap", "outerHTML")
        ∷ [])
      (if_some error (λ err. classed "div" "alert alert-danger" (Markup.escaped err))
        ⋄ Markup.element "input"
            (("type", "hidden") ∷ ("name", "user_channel_id") ∷ ("value", user_channel_id) ∷ [])
            Markup.empty
        ⋄ Markup.element "input"
            (("type", "hidden")
              ∷ ("name", "counterparty_node_id")
              ∷ ("value", counterparty_node_id)
              ∷ [])
            Markup.empty
        ⋄ classed "div" "form-check mb-2" (
            Markup.element "input"
              (("class", "form-check-input")
                ∷ ("type", "checkbox")
                ∷ ("name", "force")
                ∷ ("value", "true")
                ∷ ("id", ("forceClose-" <> decimal index))
                ∷ [])
              Markup.empty
            ⋄ Markup.element "label"
                (("class", "form-check-label text-danger small")
                  ∷ ("for", ("forceClose-" <> decimal index))
                  ∷ [])
                (Markup.escaped "Force close (unilateral)"))
        ⋄ Markup.element "button"
            (("type", "submit") ∷ ("class", "btn btn-outline-danger w-100") ∷ [])
            (Markup.escaped "Close"))

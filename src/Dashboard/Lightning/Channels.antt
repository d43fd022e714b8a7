-- ===== src/Dashboard/Lightning/Channels.antt =====
-- puncture-daemon/src/ui/lightning.rs: a channel on the page, `channel` of `lightning_template` with
-- its index. The ids of channels are written in hex by the parameter `as_hex`.
use puncture.Common.{ℕ, ◌/◌, String, none, [], ◌∷◌}
use puncture.Common.Text.{◌<>◌, decimal}
use puncture.Operator.{ChannelDetails}
use puncture.Html.{Markup, ◌⋄◌, plain, classed, display_bool}
use puncture.Dashboard.Sats.{format_sats}
use puncture.Dashboard.Shared.{copyable_hex_input}
use puncture.Dashboard.Lightning.Forms.{close_channel_form}

-- The header with the bar, `percentage` percent of it.
unfoldable pub channel_header : ℕ → ChannelDetails → ℕ → Markup
channel_header i channel percentage = classed "h2" "accordion-header" (
    Markup.element "button"
      (("class", "accordion-button collapsed")
        ∷ ("type", "button")
        ∷ ("data-bs-toggle", "collapse")
        ∷ ("data-bs-target", ("#channel-" <> decimal i))
        ∷ ("aria-expanded", "false")
        ∷ ("aria-controls", ("channel-" <> decimal i))
        ∷ [])
      (classed "div" "d-flex align-items-center w-100 me-3" (
        classed "div" "me-3" (
          Markup.escaped (format_sats (channel.outbound_capacity_msat / 1000))
          ⋄ Markup.escaped " ₿")
        ⋄ Markup.element "div"
            (("class", "progress flex-grow-1 me-3") ∷ ("style", "height: 8px;") ∷ [])
            (Markup.element "div"
              (("class", "progress-bar bg-primary")
                ∷ ("role", "progressbar")
                ∷ ("style", ("width: " <> decimal percentage <> "%"))
                ∷ ("aria-valuenow", (decimal percentage))
                ∷ ("aria-valuemin", "0")
                ∷ ("aria-valuemax", "100")
                ∷ [])
              Markup.empty)
        ⋄ plain "div" (
            Markup.escaped (format_sats (channel.inbound_capacity_msat / 1000))
            ⋄ Markup.escaped " ₿"))))

unfoldable pub channel_table : (ℕ → String) → ChannelDetails → Markup
channel_table as_hex channel = classed "table" "table table-sm table-borderless mb-3" (
    plain "tbody" (
      plain "tr" (
        Markup.element "td"
          (("class", "fw-bold") ∷ ("style", "width: 1px; white-space: nowrap;") ∷ [])
          (Markup.escaped "User Channel ID")
        ⋄ Markup.element "td" (("style", "width: 100%; min-width: 0;") ∷ [])
            (copyable_hex_input (as_hex channel.user_channel_id) none))
      ⋄ plain "tr" (
          Markup.element "td"
            (("class", "fw-bold") ∷ ("style", "width: 1px; white-space: nowrap;") ∷ [])
            (Markup.escaped "Counterparty Node ID")
          ⋄ Markup.element "td" (("style", "width: 100%; min-width: 0;") ∷ [])
              (copyable_hex_input channel.counterparty_node_id none))
      ⋄ plain "tr" (
          classed "td" "fw-bold" (Markup.escaped "Channel Value")
          ⋄ plain "td"
              (Markup.escaped (format_sats channel.channel_value_sats) ⋄ Markup.escaped " ₿"))
      ⋄ plain "tr" (
          classed "td" "fw-bold" (Markup.escaped "Outbound Capacity")
          ⋄ plain "td" (
              Markup.escaped (format_sats (channel.outbound_capacity_msat / 1000))
              ⋄ Markup.escaped " ₿"))
      ⋄ plain "tr" (
          classed "td" "fw-bold" (Markup.escaped "Inbound Capacity")
          ⋄ plain "td" (
              Markup.escaped (format_sats (channel.inbound_capacity_msat / 1000))
              ⋄ Markup.escaped " ₿"))
      ⋄ plain "tr" (
          classed "td" "fw-bold" (Markup.escaped "Channel Ready")
          ⋄ plain "td" (Markup.escaped (display_bool channel.is_channel_ready)))
      ⋄ plain "tr" (
          classed "td" "fw-bold" (Markup.escaped "Usable")
          ⋄ plain "td" (Markup.escaped (display_bool channel.is_usable)))))

unfoldable pub close_accordion : ℕ → Markup → Markup
close_accordion i form = classed "div" "d-flex justify-content-end" (
    Markup.element "div"
      (("class", "accordion")
        ∷ ("id", ("closeAccordion-" <> decimal i))
        ∷ ("style", "width: 300px;")
        ∷ [])
      (classed "div" "accordion-item" (
        classed "h2" "accordion-header" (
          Markup.element "button"
            (("class", "accordion-button collapsed btn-outline-warning")
              ∷ ("type", "button")
              ∷ ("data-bs-toggle", "collapse")
              ∷ ("data-bs-target", ("#closeCollapse-" <> decimal i))
              ∷ ("aria-expanded", "false")
              ∷ ("aria-controls", ("closeCollapse-" <> decimal i))
              ∷ [])
            (Markup.escaped "Close Channel"))
        ⋄ Markup.element "div"
            (("id", ("closeCollapse-" <> decimal i))
              ∷ ("class", "accordion-collapse collapse")
              ∷ ("data-bs-parent", ("#closeAccordion-" <> decimal i))
              ∷ [])
            (classed "div" "accordion-body" form))))

-- The channel with the form that closes it.
unfoldable pub channel_with : (ℕ → String) → ℕ → ChannelDetails → ℕ → Markup → Markup
channel_with as_hex i channel percentage form = classed "div" "accordion-item" (
    (channel_header i channel percentage)
    ⋄ Markup.element "div"
        (("id", ("channel-" <> decimal i))
          ∷ ("class", "accordion-collapse collapse")
          ∷ ("data-bs-parent", "#channelsAccordion")
          ∷ [])
        (classed "div" "accordion-body"
          ((channel_table as_hex channel) ⋄ (close_accordion i form))))

unfoldable pub channel_item : (ℕ → String) → ℕ → ChannelDetails × ℕ → Markup
unfolding channel_with
channel_item as_hex i (channel, percentage) =
    channel_with as_hex i channel percentage
      (close_channel_form (as_hex channel.user_channel_id) channel.counterparty_node_id i none)

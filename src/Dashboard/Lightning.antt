-- ===== src/Dashboard/Lightning.antt =====
-- puncture-daemon/src/ui/lightning.rs: `lightning_template`, the page of the channels and peers, and
-- what `lightning_page` answers.
pub mod Forms
pub mod Channels
pub mod Peers
use puncture.Common.{ℕ, String, none, List, [], ◌∷◌}
use puncture.Common.Outcome.{Outcome, ok, ◌>>=◌}
use puncture.Operator.{ChannelDetails, PeerDetails, OperatorNode}
use puncture.Operator.Pages.{lightning_page}
use puncture.Html.{Markup, ◌⋄◌, plain, classed, each}
use puncture.Dashboard.Sats.{format_sats}
use puncture.Dashboard.Shared.{copyable_hex_input, base_template}
use Forms.{open_channel_form, request_channel_form, connect_peer_form}
use Channels.{channel_item}
use Peers.{peer_item}

unfoldable pub capacity_cards : ℕ → ℕ → Markup
capacity_cards inbound_sats outbound_sats = classed "div" "row g-4 mb-4" (
    classed "div" "col-6" (
      classed "div" "card h-100 overflow-hidden" (
        classed "div" "card-body" (
          classed "h5" "card-title" (Markup.escaped "Inbound Capacity")
          ⋄ classed "p" "card-text display-6"
              (Markup.escaped (format_sats inbound_sats) ⋄ Markup.escaped " ₿"))))
    ⋄ classed "div" "col-6" (
        classed "div" "card h-100 overflow-hidden" (
          classed "div" "card-body" (
            classed "h5" "card-title" (Markup.escaped "Outbound Capacity")
            ⋄ classed "p" "card-text display-6"
                (Markup.escaped (format_sats outbound_sats) ⋄ Markup.escaped " ₿")))))

unfoldable pub channel_list : (ℕ → String) → List (ChannelDetails × ℕ) → Markup
channel_list as_hex [] =
    classed "p" "text-muted"
      (Markup.escaped "No channels open yet. Use the sidebar to open your first channel.")
channel_list as_hex (first ∷ others) =
    let channels = first ∷ others in
    Markup.element "div" (("class", "accordion") ∷ ("id", "channelsAccordion") ∷ [])
      (each (channel_item as_hex) 0 channels)

unfoldable pub peer_list : List PeerDetails → Markup
peer_list [] =
    classed "p" "text-muted"
      (Markup.escaped "No peers connected. Use the sidebar to connect to your first peer.")
peer_list (first ∷ others) =
    let peers = first ∷ others in
    Markup.element "div" (("class", "accordion") ∷ ("id", "peersAccordion") ∷ [])
      (each peer_item 0 peers)

unfoldable pub lightning_content :
    (ℕ → String) → ℕ → ℕ → List (ChannelDetails × ℕ) → List PeerDetails → Markup
lightning_content as_hex inbound_sats outbound_sats channels peers =
    (capacity_cards inbound_sats outbound_sats)
    ⋄ classed "div" "card h-100 overflow-hidden mb-4" (
        classed "div" "card-body" (
          classed "h5" "card-title" (Markup.escaped "Lightning Channels")
          ⋄ (channel_list as_hex channels)))
    ⋄ classed "div" "card h-100 overflow-hidden" (
        classed "div" "card-body"
          (classed "h5" "card-title" (Markup.escaped "Connected Peers") ⋄ (peer_list peers)))

unfoldable pub lightning_sidebar : String → Markup
lightning_sidebar node_id =
    classed "div" "mb-3" (
      classed "h6" "text-muted mb-2" (Markup.escaped "Node ID") ⋄ (copyable_hex_input node_id none))
    ⋄ Markup.element "div" (("class", "accordion") ∷ ("id", "lightningActionsAccordion") ∷ []) (
        classed "div" "accordion-item" (
          classed "h2" "accordion-header" (
            Markup.element "button"
              (("class", "accordion-button collapsed")
                ∷ ("type", "button")
                ∷ ("data-bs-toggle", "collapse")
                ∷ ("data-bs-target", "#openChannelCollapse")
                ∷ ("aria-expanded", "false")
                ∷ ("aria-controls", "openChannelCollapse")
                ∷ [])
              (Markup.escaped "Open Channel"))
          ⋄ Markup.element "div"
              (("id", "openChannelCollapse")
                ∷ ("class", "accordion-collapse collapse")
                ∷ ("data-bs-parent", "#lightningActionsAccordion")
                ∷ [])
              (classed "div" "accordion-body" (open_channel_form none)))
        ⋄ classed "div" "accordion-item" (
            classed "h2" "accordion-header" (
              Markup.element "button"
                (("class", "accordion-button collapsed")
                  ∷ ("type", "button")
                  ∷ ("data-bs-toggle", "collapse")
                  ∷ ("data-bs-target", "#requestChannelCollapse")
                  ∷ ("aria-expanded", "false")
                  ∷ ("aria-controls", "requestChannelCollapse")
                  ∷ [])
                (Markup.escaped "Request Channel"))
            ⋄ Markup.element "div"
                (("id", "requestChannelCollapse")
                  ∷ ("class", "accordion-collapse collapse")
                  ∷ ("data-bs-parent", "#lightningActionsAccordion")
                  ∷ [])
                (classed "div" "accordion-body" (request_channel_form none)))
        ⋄ classed "div" "accordion-item" (
            classed "h2" "accordion-header" (
              Markup.element "button"
                (("class", "accordion-button collapsed")
                  ∷ ("type", "button")
                  ∷ ("data-bs-toggle", "collapse")
                  ∷ ("data-bs-target", "#connectPeerCollapse")
                  ∷ ("aria-expanded", "false")
                  ∷ ("aria-controls", "connectPeerCollapse")
                  ∷ [])
                (Markup.escaped "Connect Peer"))
            ⋄ Markup.element "div"
                (("id", "connectPeerCollapse")
                  ∷ ("class", "accordion-collapse collapse")
                  ∷ ("data-bs-parent", "#lightningActionsAccordion")
                  ∷ [])
                (classed "div" "accordion-body" (connect_peer_form none))))

unfoldable pub lightning_template :
    (ℕ → String) → String → ℕ → ℕ → List (ChannelDetails × ℕ) → List PeerDetails → Markup
lightning_template as_hex node_id inbound_sats outbound_sats channels peers =
    base_template "Lightning" "/lightning"
      (lightning_content as_hex inbound_sats outbound_sats channels peers)
      (lightning_sidebar node_id)

-- Each channel with its bar.
unfoldable pub with_bars : List ChannelDetails → List ℕ → List (ChannelDetails × ℕ)
with_bars [] bars = []
with_bars (channel ∷ channels) [] = []
with_bars (channel ∷ channels) (bar ∷ bars) = (channel, bar) ∷ with_bars channels bars

unfoldable pub lightning_html : OperatorNode → Outcome Markup
lightning_html node = do
  page ← lightning_page node
  ok (
      lightning_template node.channel_id_as_hex page.node_id page.inbound_sats page.outbound_sats
        (with_bars node.list_channels page.bars) page.peers)

-- ===== src/Dashboard/Lightning/Peers.antt =====
-- puncture-daemon/src/ui/lightning.rs: a peer on the page, `peer` of `lightning_template` with its
-- index.
use Prim.Native.String.{slice}
use puncture.Common.{ℕ, Bool, true, false, none, [], ◌∷◌}
use puncture.Common.Text.{◌<>◌, decimal}
use puncture.Operator.{PeerDetails}
use puncture.Html.{Markup, ◌⋄◌, plain, classed, display_bool}
use puncture.Dashboard.Shared.{copyable_hex_input}
use puncture.Dashboard.Lightning.Forms.{disconnect_peer_form}

unfoldable pub badge : Bool → Markup
badge true = classed "span" "badge bg-success ms-auto" (Markup.escaped "Connected")
badge false = classed "span" "badge bg-danger ms-auto" (Markup.escaped "Disconnected")

-- A node id has 66 digits, so that the slice of its first 16 does not panic.
unfoldable pub peer_header : ℕ → PeerDetails → Bool → Markup
peer_header i peer connected = classed "h2" "accordion-header" (
    Markup.element "button"
      (("class", "accordion-button collapsed")
        ∷ ("type", "button")
        ∷ ("data-bs-toggle", "collapse")
        ∷ ("data-bs-target", ("#peer-" <> decimal i))
        ∷ ("aria-expanded", "false")
        ∷ ("aria-controls", ("peer-" <> decimal i))
        ∷ [])
      (classed "div" "d-flex align-items-center w-100 me-3" (
        classed "div" "me-3 font-monospace small"
          (Markup.escaped (slice peer.node_id 0 16) ⋄ Markup.escaped "...")
        ⋄ (badge connected))))

unfoldable pub peer_table : PeerDetails → Markup
peer_table peer = classed "table" "table table-sm table-borderless mb-3" (
    plain "tbody" (
      plain "tr" (
        Markup.element "td"
          (("class", "fw-bold") ∷ ("style", "width: 1px; white-space: nowrap;") ∷ [])
          (Markup.escaped "Node ID")
        ⋄ Markup.element "td" (("style", "width: 100%; min-width: 0;") ∷ [])
            (copyable_hex_input peer.node_id none))
      ⋄ plain "tr" (
          classed "td" "fw-bold" (Markup.escaped "Address")
          ⋄ classed "td" "font-monospace small" (Markup.escaped (peer.address)))
      ⋄ plain "tr" (
          classed "td" "fw-bold" (Markup.escaped "Connected")
          ⋄ plain "td" (Markup.escaped (display_bool peer.is_connected)))
      ⋄ plain "tr" (
          classed "td" "fw-bold" (Markup.escaped "Persisted")
          ⋄ plain "td" (Markup.escaped (display_bool peer.is_persisted)))))

unfoldable pub disconnect_accordion : ℕ → PeerDetails → Markup
disconnect_accordion i peer = classed "div" "d-flex justify-content-end" (
    Markup.element "div"
      (("class", "accordion")
        ∷ ("id", ("disconnectAccordion-" <> decimal i))
        ∷ ("style", "width: 300px;")
        ∷ [])
      (classed "div" "accordion-item" (
        classed "h2" "accordion-header" (
          Markup.element "button"
            (("class", "accordion-button collapsed btn-outline-danger")
              ∷ ("type", "button")
              ∷ ("data-bs-toggle", "collapse")
              ∷ ("data-bs-target", ("#disconnectCollapse-" <> decimal i))
              ∷ ("aria-expanded", "false")
              ∷ ("aria-controls", ("disconnectCollapse-" <> decimal i))
              ∷ [])
            (Markup.escaped "Disconnect Peer"))
        ⋄ Markup.element "div"
            (("id", ("disconnectCollapse-" <> decimal i))
              ∷ ("class", "accordion-collapse collapse")
              ∷ ("data-bs-parent", ("#disconnectAccordion-" <> decimal i))
              ∷ [])
            (classed "div" "accordion-body" (disconnect_peer_form peer.node_id none)))))

-- The peer, where `connected` says which badge it has.
unfoldable pub peer_with : ℕ → PeerDetails → Bool → Markup
peer_with i peer connected = classed "div" "accordion-item" (
    (peer_header i peer connected)
    ⋄ Markup.element "div"
        (("id", ("peer-" <> decimal i))
          ∷ ("class", "accordion-collapse collapse")
          ∷ ("data-bs-parent", "#peersAccordion")
          ∷ [])
        (classed "div" "accordion-body" ((peer_table peer) ⋄ (disconnect_accordion i peer))))

unfoldable pub peer_item : ℕ → PeerDetails → Markup
unfolding peer_with
peer_item i peer = peer_with i peer peer.is_connected

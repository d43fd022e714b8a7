-- ===== src/Dashboard/Resolved/Lightning.antt =====
-- The references on the page of the channels and peers, and the frame of all pages.
use text.Mathlib.TextLemmas.{append_assoc}
use puncture.Common.{ℕ, String, Bool, true, false, List, [], ◌∷◌, ◌++◌, sym}
use puncture.Common.Text.{decimal}
use puncture.Operator.{ChannelDetails, PeerDetails}
use puncture.Html.{Markup}
use puncture.Html.References.{
  ids_of, references_of, this, later, Covers-first, AllNamed-mono, AllNamed-append, Closed,
  Closed-each, Closed-seq,
}
use puncture.Dashboard.Shared.{copyable_hex_input, base_template}
use puncture.Dashboard.Lightning.{
  capacity_cards, channel_list, peer_list, lightning_content, lightning_sidebar, lightning_template,
}
use puncture.Dashboard.Lightning.Forms.{
  open_channel_form, request_channel_form, close_channel_form, connect_peer_form,
  disconnect_peer_form,
}
use puncture.Dashboard.Lightning.Channels.{
  channel_header, channel_table, close_accordion, channel_with, channel_item,
}
use puncture.Dashboard.Lightning.Peers.{
  badge, peer_header, peer_table, disconnect_accordion, peer_with, peer_item,
}

pub base_template-Closed :
    (title path : String) (content sidebar : Markup)
    → Closed [] content
    → Closed [] sidebar
    → Closed [] (base_template title path content sidebar)
unfolding ids_of references_of base_template
base_template-Closed title path content sidebar c s =
    AllNamed-append _ (references_of content ++ references_of sidebar) []
      (AllNamed-mono (references_of content ++ references_of sidebar)
        (λ selector n. later (Covers-first (ids_of content ++ ids_of sidebar) [] selector n))
        (Closed-seq [] content sidebar c s))
      tt

channel_item-Closed :
    (as_hex : ℕ → String) (i : ℕ) (channel : ChannelDetails × ℕ)
    → Closed ("channelsAccordion" ∷ []) (channel_item as_hex i channel)
unfolding ids_of references_of channel_header channel_table close_accordion channel_with
    channel_item copyable_hex_input close_channel_form
channel_item-Closed as_hex i (channel, percentage) = search (
  this,
  later,
  sym (append_assoc "#" "channel-" (decimal i)),
  sym (append_assoc "#" "closeCollapse-" (decimal i)),
  sym (append_assoc "#" "closeAccordion-" (decimal i)),
)

peer_with-Closed :
    (i : ℕ) (peer : PeerDetails) (connected : Bool)
    → Closed ("peersAccordion" ∷ []) (peer_with i peer connected)
unfolding ids_of references_of badge peer_header peer_table disconnect_accordion peer_with
    copyable_hex_input disconnect_peer_form
peer_with-Closed i peer true = search (
  this,
  later,
  sym (append_assoc "#" "peer-" (decimal i)),
  sym (append_assoc "#" "disconnectCollapse-" (decimal i)),
  sym (append_assoc "#" "disconnectAccordion-" (decimal i)),
)
peer_with-Closed i peer false = search (
  this,
  later,
  sym (append_assoc "#" "peer-" (decimal i)),
  sym (append_assoc "#" "disconnectCollapse-" (decimal i)),
  sym (append_assoc "#" "disconnectAccordion-" (decimal i)),
)

peer_item-Closed : (i : ℕ) (peer : PeerDetails) → Closed ("peersAccordion" ∷ []) (peer_item i peer)
unfolding peer_item
peer_item-Closed i peer = peer_with-Closed i peer peer.is_connected

channel_list-Closed :
    (as_hex : ℕ → String) (channels : List (ChannelDetails × ℕ))
    → Closed [] (channel_list as_hex channels)
unfolding ids_of references_of channel_list
channel_list-Closed as_hex [] = tt
channel_list-Closed as_hex (first ∷ others) =
    Closed-each ("channelsAccordion" ∷ []) (channel_item as_hex) (channel_item-Closed as_hex) 0
      (first ∷ others)

peer_list-Closed : (peers : List PeerDetails) → Closed [] (peer_list peers)
unfolding ids_of references_of peer_list
peer_list-Closed [] = tt
peer_list-Closed (first ∷ others) =
    Closed-each ("peersAccordion" ∷ []) peer_item peer_item-Closed 0 (first ∷ others)

lightning_sidebar-Closed : (node_id : String) → Closed [] (lightning_sidebar node_id)
unfolding ids_of references_of lightning_sidebar copyable_hex_input open_channel_form
    request_channel_form connect_peer_form
lightning_sidebar-Closed node_id = search (this, later) depth 14

pub lightning_template-Closed :
    (as_hex : ℕ → String) (node_id : String) (inbound_sats outbound_sats : ℕ)
    (channels : List (ChannelDetails × ℕ)) (peers : List PeerDetails)
    → Closed [] (lightning_template as_hex node_id inbound_sats outbound_sats channels peers)
unfolding ids_of references_of lightning_template lightning_content capacity_cards
lightning_template-Closed as_hex node_id inbound_sats outbound_sats channels peers =
    base_template-Closed "Lightning" "/lightning"
      (lightning_content as_hex inbound_sats outbound_sats channels peers)
      (lightning_sidebar node_id)
      (Closed-seq [] (channel_list as_hex channels) (peer_list peers)
        (channel_list-Closed as_hex channels) (peer_list-Closed peers))
      (lightning_sidebar-Closed node_id)

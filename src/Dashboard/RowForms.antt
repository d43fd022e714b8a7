-- ===== src/Dashboard/RowForms.antt =====
-- What the forms in the rows of the pages send as they are drawn, and what the handlers do with it.
use puncture.Common.{
  ℕ, String, Bool, true, false, Option, none, some, List, [], ◌∷◌, ◌++◌, ◌==◌, ◌&&◌, ◌≡◌, refl,
  arith, if◌then◌else◌,
}
use puncture.Node.{Answer}
use puncture.Operator.{ChannelDetails, PeerDetails, OperatorCall, OperatorNode}
use puncture.Operator.Cli.{closing}
use puncture.Operator.Forms.{
  CloseChannelForm, DisconnectPeerForm, try_close_channel, try_disconnect_peer,
}
use puncture.Admin.CliDb.{UserInfo}
use puncture.Html.{Markup, ◌⋄◌}
use puncture.Html.Forms.{attribute}
use puncture.Dashboard.Shared.{copyable_hex_input}
use puncture.Dashboard.Lightning.Forms.{close_channel_form, disconnect_peer_form}
use puncture.Dashboard.Lightning.Channels.{
  channel_header, channel_table, close_accordion, channel_with, channel_item,
}
use puncture.Dashboard.Lightning.Peers.{
  badge, peer_header, peer_table, disconnect_accordion, peer_with, peer_item,
}
use puncture.Dashboard.Users.Forms.{recovery_form_for_user}
use puncture.Dashboard.Users.Rows.{recovery_accordion, user_table, user_item}
use puncture.Dashboard.Answers.{close_channel_again}

abbrev or_else : Option String → Option String → Option String
or_else none second = second
or_else (some value) second = some value

abbrev is_named : String → Option String → Bool
is_named name none = false
is_named name (some n) = n == name

-- The value that the first input of a name is drawn with.
unfoldable pub drawn_value : String → Markup → Option String
drawn_value name Markup.empty = none
drawn_value name (Markup.escaped s) = none
drawn_value name (Markup.pre_escaped s) = none
drawn_value name (Markup.element tag attributes body) =
    let inside = drawn_value name body in
    if tag == "input" && is_named name (attribute "name" attributes)
    then attribute "value" attributes
    else inside
drawn_value name (first ⋄ second) = or_else (drawn_value name first) (drawn_value name second)

abbrev sent : Option String → String
sent none = ""
sent (some value) = value

-- The form of a channel as it is sent, where the operator decides to force it or not.
abbrev pub sent_close : Bool → Markup → CloseChannelForm
sent_close force markup = record {
  user_channel_id = sent (drawn_value "user_channel_id" markup);
  counterparty_node_id = sent (drawn_value "counterparty_node_id" markup);
  force = force;
}

abbrev pub sent_disconnect : Markup → DisconnectPeerForm
sent_disconnect markup = record {
  counterparty_node_id = sent (drawn_value "counterparty_node_id" markup);
}

sent_disconnect-peer_with :
    (i : ℕ) (peer : PeerDetails) (connected : Bool)
    → sent_disconnect (peer_with i peer connected) ≡ record { counterparty_node_id = peer.node_id }
unfolding drawn_value peer_with peer_header badge peer_table disconnect_accordion
    disconnect_peer_form copyable_hex_input
sent_disconnect-peer_with i peer true = refl
sent_disconnect-peer_with i peer false = refl

sent_disconnect-peer_item :
    (i : ℕ) (peer : PeerDetails)
    → sent_disconnect (peer_item i peer) ≡ record { counterparty_node_id = peer.node_id }
unfolding peer_item
sent_disconnect-peer_item i peer = sent_disconnect-peer_with i peer peer.is_connected

sent_close-channel_item :
    (as_hex : ℕ → String) (force : Bool) (i : ℕ) (channel : ChannelDetails) (percentage : ℕ)
    → sent_close force (channel_item as_hex i (channel, percentage)) ≡ record {
      user_channel_id = as_hex channel.user_channel_id;
      counterparty_node_id = channel.counterparty_node_id;
      force = force;
    }
unfolding drawn_value channel_item channel_with channel_header channel_table close_accordion
    close_channel_form copyable_hex_input
sent_close-channel_item as_hex force i channel percentage = refl

closes_channel :
    (node : OperatorNode) (force : Bool) (text peer : String) (id : ℕ) (calls : List OperatorCall)
    → node.channel_id_from_hex text ≡ Answer.granted id
    → node.parse_public_key peer ≡ Answer.granted peer
    → (try_close_channel node
        (record { user_channel_id = text; counterparty_node_id = peer; force = force })
        calls).1
      ≡ calls ++ (closing node force id peer).0 ∷ []
unfolding try_close_channel
closes_channel node force text peer id calls reads_id reads_peer = ground arith

disconnects_peer :
    (node : OperatorNode) (peer : String) (calls : List OperatorCall)
    → node.parse_public_key peer ≡ Answer.granted peer
    → (try_disconnect_peer node (record { counterparty_node_id = peer }) calls).1
      ≡ calls ++ OperatorCall.disconnect peer ∷ []
unfolding try_disconnect_peer
disconnects_peer node peer calls reads_peer = ground arith

-- Where the node reads the ids that the pages write, the form of a channel closes just this channel,
-- by force if the operator ticked the box, and the form of a peer disconnects just this peer. The
-- form of a channel that is shown again with an error sends what the form before it sent, and the
-- form of a user sends the key of this user.
pub row_forms_act :
    (node : OperatorNode) (force : Bool) (i percentage : ℕ) (channel : ChannelDetails)
    (peer : PeerDetails) (calls : List OperatorCall) (form : CloseChannelForm) (error : String)
    (format_timestamp : ℕ → String) (user : UserInfo)
    → node.channel_id_from_hex (node.channel_id_as_hex channel.user_channel_id)
      ≡ Answer.granted channel.user_channel_id
    → node.parse_public_key channel.counterparty_node_id
      ≡ Answer.granted channel.counterparty_node_id
    → node.parse_public_key peer.node_id ≡ Answer.granted peer.node_id
    → ((try_close_channel node
          (sent_close force (channel_item node.channel_id_as_hex i (channel, percentage)))
          calls).1
        ≡ calls ++ (closing node force channel.user_channel_id channel.counterparty_node_id).0 ∷ [])
      × ((try_disconnect_peer node (sent_disconnect (peer_item i peer)) calls).1
          ≡ calls ++ OperatorCall.disconnect peer.node_id ∷ [])
      × (sent_close form.force (close_channel_again form error) ≡ form)
      × (drawn_value "user_pk" (user_item format_timestamp i user) ≡ some user.user_pk)
unfolding drawn_value close_channel_again close_channel_form user_item user_table recovery_accordion
    recovery_form_for_user copyable_hex_input
row_forms_act node force i percentage channel peer calls form error format_timestamp user reads_id
      reads_channel reads_peer =
    (
      rw (sent_close-channel_item node.channel_id_as_hex force i channel percentage) (
          closes_channel node force _ channel.counterparty_node_id channel.user_channel_id calls
            reads_id reads_channel),
      rw (sent_disconnect-peer_item i peer) (disconnects_peer node peer.node_id calls reads_peer),
      refl,
      refl,
    )

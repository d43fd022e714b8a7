-- ===== src/Tests/Dashboard.antt =====
-- The dashboard of a small node.
use puncture.Common.{Option, ℕ, String, true, false, some, none, [], ◌∷◌, ◌++◌, ◌≡◌, refl, arith}
use puncture.Common.Outcome.{ok, ◌>>=◌}
use puncture.Common.Text.{◌<>◌}
use puncture.Operator.{ChannelDetails, PeerDetails, Ended, OperatorCall}
use puncture.Operator.Cli.{closing}
use puncture.Operator.Forms.{
  CloseChannelForm, try_close_channel, try_disconnect_peer, DisconnectPeerForm, OpenChannelForm,
  RequestChannelForm, ConnectPeerForm, OnchainSendForm, OnchainDrainForm,
}
use puncture.Admin.CliDb.{UserInfo}
use puncture.Node.{Answer}
use puncture.Admin.{InviteRequest, invite_submit, user_invite}
use puncture.Admin.Invites.{invite_admits}
use puncture.Codes.{Encoding, invite, to_invite, decode}
use puncture.ClientDb.{count_invite_users, user_exists}
use puncture.Rpc.Account.{register}
use puncture.Html.{Markup}
use puncture.Html.References.{references_of, Closed}
use puncture.Dashboard.Lightning.{lightning_html}
use puncture.Dashboard.Lightning.Forms.{close_channel_form}
use puncture.Dashboard.Lightning.Channels.{channel_item}
use puncture.Dashboard.Lightning.Peers.{peer_item}
use puncture.Dashboard.Onchain.{onchain_html}
use puncture.Dashboard.Users.{users_page}
use puncture.Dashboard.Users.Rows.{user_item}
use puncture.Dashboard.Answers.{
  close_channel_again, close_channel_answer, open_channel_answer, request_channel_answer,
  connect_peer_answer, disconnect_peer_answer, onchain_receive_answer, onchain_send_answer,
  onchain_drain_answer,
}
use puncture.Dashboard.Served.{AllServed}
use puncture.Dashboard.Served.Pages.{page_forms_served}
use puncture.Dashboard.Served.Answers.{AnswerServed, answer_forms_served}
use puncture.Dashboard.Resolved.{references_resolve}
use puncture.Dashboard.CloseAgain.{form_around, channels_after, close_again_labels_first}
use puncture.Dashboard.RowForms.{sent_close, sent_disconnect, drawn_value, row_forms_act}
use puncture.Tests.Data.{shop, env}
use puncture.Tests.Operators.{node, reading, channel, strokes_read, stored}

abbrev date : ℕ → String
date t = "21 November 2026"

abbrev svg : String → Option String
svg text = some ("<svg>" <> text <> "</svg>")

abbrev peer : PeerDetails
peer = record {
  node_id = "02bb";
  address = "10.0.0.1:9735";
  is_persisted = true;
  is_connected = false;
}

abbrev other_channel : ChannelDetails
other_channel = record channel { user_channel_id = 9 }

abbrev dana : UserInfo
dana = record { user_pk = "03dd"; balance_msat = 2000; recovery_name = some "Dana"; created_at = 5 }

abbrev closes : CloseChannelForm
closes = record { user_channel_id = "111111111"; counterparty_node_id = "02aa"; force = true }

abbrev disconnects : DisconnectPeerForm
disconnects = record { counterparty_node_id = "02bb" }

abbrev opens_form : OpenChannelForm
opens_form = record {
  node_id = "02bb";
  socket_address = "10.0.0.1:9735";
  channel_amount_sats = 50000;
  public = true;
}

abbrev requests : RequestChannelForm
requests = record { lsp_balance_sat = 100000; public = false }

abbrev connects : ConnectPeerForm
connects = record { node_id = "02bb"; socket_address = "10.0.0.1:9735"; persist = true }

abbrev sends : OnchainSendForm
sends = record { address = "bc1"; amount_sats = 700 }

abbrev drains : OnchainDrainForm
drains = record { address = "bc1" }

page_forms_served_example :
    ((page : Markup) × (lightning_html node ≡ ok page) × AllServed page)
    × AllServed (onchain_html date node stored)
    × AllServed (users_page date shop.db)
page_forms_served_example =
    page_forms_served date node stored shop.db (omega arith, omega arith, tt)

answer_forms_served_example :
    AnswerServed (open_channel_answer svg node opens_form []).0
    × AnswerServed (request_channel_answer svg node requests []).0
    × AnswerServed (close_channel_answer svg node closes []).0
    × AnswerServed (connect_peer_answer svg node connects []).0
    × AnswerServed (disconnect_peer_answer svg node disconnects []).0
    × AnswerServed (onchain_receive_answer svg node []).0
    × AnswerServed (onchain_send_answer svg node sends []).0
    × AnswerServed (onchain_drain_answer svg node drains []).0
answer_forms_served_example =
    answer_forms_served svg node [] opens_form requests closes connects disconnects sends drains

references_resolve_example :
    ((page : Markup) × (lightning_html node ≡ ok page) × Closed [] page)
    × Closed [] (onchain_html date node stored)
    × Closed [] (users_page date shop.db)
references_resolve_example =
    references_resolve date node stored shop.db (omega arith, omega arith, tt)

close_again_labels_first_example :
    (close_channel_answer svg node closes [] ≡ (
      Ended.done (close_channel_again closes "Failed to close channel: not yet"),
      OperatorCall.force_close_channel 9 "02aa" ∷ [],
    ))
    × (references_of (close_channel_again closes "Failed to close channel: not yet")
        ≡ "#forceClose-0" ∷ [])
    × (form_around "forceClose-0" (
          channels_after node.channel_id_as_hex closes "Failed to close channel: not yet" 1 0
            ((channel, 25) ∷ (other_channel, 25) ∷ []))
        ≡ some (close_channel_form (node.channel_id_as_hex 7) "02aa" 0 none))
unfolding try_close_channel
close_again_labels_first_example =
    close_again_labels_first svg node closes "Failed to close channel: not yet" []
      (OperatorCall.force_close_channel 9 "02aa" ∷ []) channel 25 ((other_channel, 25) ∷ []) 0 refl

row_forms_act_example :
    ((try_close_channel reading
        (sent_close true (channel_item reading.channel_id_as_hex 0 (channel, 25)))
        []).1
      ≡ [] ++ (closing reading true 7 "02aa").0 ∷ [])
    × ((try_disconnect_peer reading (sent_disconnect (peer_item 0 peer)) []).1
        ≡ [] ++ OperatorCall.disconnect "02bb" ∷ [])
    × (sent_close closes.force (close_channel_again closes "not yet") ≡ closes)
    × (drawn_value "user_pk" (user_item date 0 dana) ≡ some "03dd")
row_forms_act_example =
    row_forms_act reading true 0 25 channel peer [] closes "not yet" date dana (strokes_read 7) refl
      refl

-- A code is written as one number, and hex as one character.
abbrev codes : Encoding
codes = record {
  to_bytes = λ c. 7 ∷ [];
  from_bytes = λ b. Answer.granted (invite "i7" "n1");
  to_hex = λ b. "07";
  from_hex = λ s. Answer.granted (7 ∷ []);
}

abbrev two_days : InviteRequest
two_days = record { expiry_days = 2; user_limit = 1 }

invite_admits_example :
    let (code, w') = invite_submit codes 4000 "i7" "n1" two_days shop in
    let (joined, w'') = register env "carol" (record { invite_id = "i7" }) w' in
    (code >>= decode codes >>= to_invite ≡ ok (record { id = "i7"; node_id = "n1" }))
    × ((user_invite codes 4000 "i7" "n1" two_days shop).1 ≡ w')
    × (joined ≡ ok (record { network = "regtest"; name = "test" }))
    × (user_exists w''.db "carol" ≡ true)
unfolding count_invite_users
invite_admits_example =
    invite_admits codes 4000 "i7" "n1" two_days shop env "carol" refl (omega arith) (omega arith)
      (omega arith) refl refl

-- ===== src/Dashboard/Answers.antt =====
-- What the form handlers of puncture-daemon/src/ui answer as markup: the `match` of each `…_submit`.
use puncture.Common.{String, Option, some, [], ◌∷◌}
use puncture.Common.Outcome.{Outcome, ok, err, panic, ◌>>=◌}
use puncture.Operator.{Ended, OperatorNode, Act}
use puncture.Operator.Forms.{
  Shown, OpenChannelForm, RequestChannelForm, CloseChannelForm, ConnectPeerForm, DisconnectPeerForm,
  OnchainSendForm, OnchainDrainForm, open_channel_submit, request_channel_submit,
  close_channel_submit, connect_peer_submit, disconnect_peer_submit, onchain_receive_submit,
  onchain_send_submit, onchain_drain_submit,
}
use puncture.Html.{Markup}
use puncture.Dashboard.Shared.{qr_code_with_copy, success_replacement, success_message}
use puncture.Dashboard.Lightning.Forms.{
  open_channel_form, request_channel_form, close_channel_form, connect_peer_form,
  disconnect_peer_form,
}
use puncture.Dashboard.Onchain.Forms.{send_bitcoin_form, drain_wallet_form}

-- The link that follows a payment on chain.
unfoldable pub mempool_link : String → Markup
mempool_link url =
    Markup.element "a"
      (("href", url) ∷ ("target", "_blank") ∷ ("class", "btn btn-outline-primary") ∷ [])
      (Markup.escaped "mempool.space")

-- The markup of what a handler shows, with the form to show again and what a text becomes.
unfoldable pub drawn : (String → Markup) → (String → Outcome Markup) → Shown → Outcome Markup
drawn again content (Shown.success_message message) = ok (success_message message)
drawn again content (Shown.success_replacement title message s) =
    content s >>= λ markup. ok (success_replacement title message markup)
drawn again content (Shown.form_again error) = ok (again error)

abbrev pub ended : Outcome Markup → Ended String Markup
ended (ok markup) = Ended.done markup
ended (err e) = Ended.failed e
ended (panic e) = Ended.panicked e

abbrev pub answered : (Shown → Outcome Markup) → Act String Shown → Act String Markup
answered draw act calls =
    let (r, calls') = act calls in
    (
      elim r [
        | Ended.done shown ↦ ended (draw shown)
        | Ended.failed e ↦ Ended.failed e
        | Ended.panicked e ↦ Ended.panicked e
      ],
      calls',
    )

-- An error in the form that closes a channel: the index is 0, whatever the channel's was.
unfoldable pub close_channel_again : CloseChannelForm → String → Markup
close_channel_again form error =
    close_channel_form form.user_channel_id form.counterparty_node_id 0 (some error)

module _ (qr_svg : String → Option String) (node : OperatorNode) where
  unfoldable pub open_channel_answer : OpenChannelForm → Act String Markup
  open_channel_answer form =
      answered (drawn (λ e. open_channel_form (some e)) (qr_code_with_copy qr_svg))
        (open_channel_submit node form)

  unfoldable pub request_channel_answer : RequestChannelForm → Act String Markup
  request_channel_answer form =
      answered (drawn (λ e. request_channel_form (some e)) (qr_code_with_copy qr_svg))
        (request_channel_submit node form)

  unfoldable pub close_channel_answer : CloseChannelForm → Act String Markup
  close_channel_answer form =
      answered (drawn (close_channel_again form) (qr_code_with_copy qr_svg))
        (close_channel_submit node form)

  unfoldable pub connect_peer_answer : ConnectPeerForm → Act String Markup
  connect_peer_answer form =
      answered (drawn (λ e. connect_peer_form (some e)) (qr_code_with_copy qr_svg))
        (connect_peer_submit node form)

  unfoldable pub disconnect_peer_answer : DisconnectPeerForm → Act String Markup
  disconnect_peer_answer form =
      answered
        (drawn (λ e. disconnect_peer_form form.counterparty_node_id (some e))
          (qr_code_with_copy qr_svg))
        (disconnect_peer_submit node form)

  unfoldable pub onchain_receive_answer : Act String Markup
  onchain_receive_answer =
      answered (drawn (λ e. Markup.empty) (qr_code_with_copy qr_svg)) (onchain_receive_submit node)

  unfoldable pub onchain_send_answer : OnchainSendForm → Act String Markup
  onchain_send_answer form =
      answered (drawn (λ e. send_bitcoin_form (some e)) (λ url. ok (mempool_link url)))
        (onchain_send_submit node form)

  unfoldable pub onchain_drain_answer : OnchainDrainForm → Act String Markup
  onchain_drain_answer form =
      answered (drawn (λ e. drain_wallet_form (some e)) (λ url. ok (mempool_link url)))
        (onchain_drain_submit node form)

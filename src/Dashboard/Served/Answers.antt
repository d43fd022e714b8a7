-- ===== src/Dashboard/Served/Answers.antt =====
-- The forms in the answers of the handlers of forms.
use puncture.Common.{String, Option, some, List, [], refl, inl, inr, Option-cases}
use puncture.Common.Outcome.{Outcome, ok, err, panic, ◌>>=◌}
use puncture.Operator.{Ended, OperatorNode, OperatorCall, Act}
use puncture.Operator.Forms.{
  Shown, OpenChannelForm, RequestChannelForm, CloseChannelForm, ConnectPeerForm, DisconnectPeerForm,
  OnchainSendForm, OnchainDrainForm, open_channel_submit, request_channel_submit,
  close_channel_submit, connect_peer_submit, disconnect_peer_submit, onchain_receive_submit,
  onchain_send_submit, onchain_drain_submit,
}
use puncture.Html.{Markup}
use puncture.Html.Forms.{all_forms}
use puncture.Dashboard.Shared.{qr_code_with_copy, success_replacement, success_message}
use puncture.Dashboard.Lightning.Forms.{
  open_channel_form, request_channel_form, connect_peer_form, disconnect_peer_form,
}
use puncture.Dashboard.Onchain.Forms.{send_bitcoin_form, drain_wallet_form}
use puncture.Dashboard.Answers.{
  mempool_link, drawn, ended, answered, close_channel_again, open_channel_answer,
  request_channel_answer, close_channel_answer, connect_peer_answer, disconnect_peer_answer,
  onchain_receive_answer, onchain_send_answer, onchain_drain_answer,
}
use puncture.Dashboard.Served.{
  AllServed, open_channel_form-AllServed, request_channel_form-AllServed,
  connect_peer_form-AllServed, disconnect_peer_form-AllServed, close_channel_form-AllServed,
  send_bitcoin_form-AllServed, drain_wallet_form-AllServed,
}

-- Every form in the markup that an action ends with is served.
abbrev pub AnswerServed : Ended String Markup → Type 0
AnswerServed (Ended.done markup) = AllServed markup
AnswerServed (Ended.failed e) = Unit
AnswerServed (Ended.panicked e) = Unit

-- Every form in the markup of an outcome is served.
abbrev OutcomeServed : Outcome Markup → Type 0
OutcomeServed (ok markup) = AllServed markup
OutcomeServed (err e) = Unit
OutcomeServed (panic e) = Unit

replaced-OutcomeServed :
    (title message : String) (content : Outcome Markup)
    → OutcomeServed content
    → OutcomeServed (content >>= λ markup. ok (success_replacement title message markup))
unfolding all_forms success_replacement
replaced-OutcomeServed title message (ok markup) h = h
replaced-OutcomeServed title message (err e) h = tt
replaced-OutcomeServed title message (panic e) h = tt

drawn-OutcomeServed :
    (again : String → Markup) (content : String → Outcome Markup)
    → ((e : String) → AllServed (again e))
    → ((s : String) → OutcomeServed (content s))
    → (shown : Shown) → OutcomeServed (drawn again content shown)
unfolding all_forms drawn success_message
drawn-OutcomeServed again content a c (Shown.success_message message) = refl
drawn-OutcomeServed again content a c (Shown.success_replacement title message s) =
    replaced-OutcomeServed title message (content s) (c s)
drawn-OutcomeServed again content a c (Shown.form_again e) = a e

ended-AnswerServed : (r : Outcome Markup) → OutcomeServed r → AnswerServed (ended r)
ended-AnswerServed (ok markup) h = h
ended-AnswerServed (err e) h = tt
ended-AnswerServed (panic e) h = tt

answered-AnswerServed :
    (draw : Shown → Outcome Markup)
    → ((shown : Shown) → OutcomeServed (draw shown))
    → (result : Ended String Shown × List OperatorCall)
    → AnswerServed (answered draw (λ _. result) []).0
answered-AnswerServed draw h (Ended.done shown, calls) = ended-AnswerServed (draw shown) (h shown)
answered-AnswerServed draw h (Ended.failed e, calls) = tt
answered-AnswerServed draw h (Ended.panicked e, calls) = tt

qr_code_with_copy-OutcomeServed :
    (qr_svg : String → Option String) (s : String) → OutcomeServed (qr_code_with_copy qr_svg s)
unfolding all_forms qr_code_with_copy
qr_code_with_copy-OutcomeServed qr_svg s = elim (Option-cases (qr_svg s)) [
  | inl e ↦ rw e tt
  | inr (svg, e) ↦ rw e refl
]

mempool_link-OutcomeServed : (s : String) → OutcomeServed (ok (mempool_link s))
unfolding all_forms mempool_link
mempool_link-OutcomeServed s = refl

module _ (qr_svg : String → Option String) (node : OperatorNode) (calls : List OperatorCall) where
  qr_answer-AnswerServed :
      (again : String → Markup) (act : Act String Shown)
      → ((e : String) → AllServed (again e))
      → AnswerServed (answered (drawn again (qr_code_with_copy qr_svg)) act calls).0
  qr_answer-AnswerServed again act h =
      answered-AnswerServed _
        (drawn-OutcomeServed again _ h (qr_code_with_copy-OutcomeServed qr_svg)) (act calls)

  link_answer-AnswerServed :
      (again : String → Markup) (act : Act String Shown)
      → ((e : String) → AllServed (again e))
      → AnswerServed (answered (drawn again (λ url. ok (mempool_link url))) act calls).0
  link_answer-AnswerServed again act h =
      answered-AnswerServed _ (drawn-OutcomeServed again _ h mempool_link-OutcomeServed) (act calls)

  -- Whatever the node answers, each form in the markup that a handler of the node's forms answers is
  -- served by the dashboard as those of the pages are: the form that is shown again with an error can
  -- be sent again.
  pub answer_forms_served :
      (opens : OpenChannelForm) (requests : RequestChannelForm) (closes : CloseChannelForm)
      (connects : ConnectPeerForm) (disconnects : DisconnectPeerForm) (sends : OnchainSendForm)
      (drains : OnchainDrainForm)
      → AnswerServed (open_channel_answer qr_svg node opens calls).0
        × AnswerServed (request_channel_answer qr_svg node requests calls).0
        × AnswerServed (close_channel_answer qr_svg node closes calls).0
        × AnswerServed (connect_peer_answer qr_svg node connects calls).0
        × AnswerServed (disconnect_peer_answer qr_svg node disconnects calls).0
        × AnswerServed (onchain_receive_answer qr_svg node calls).0
        × AnswerServed (onchain_send_answer qr_svg node sends calls).0
        × AnswerServed (onchain_drain_answer qr_svg node drains calls).0
  unfolding all_forms open_channel_answer request_channel_answer close_channel_answer
      close_channel_again connect_peer_answer disconnect_peer_answer onchain_receive_answer
      onchain_send_answer onchain_drain_answer
  answer_forms_served opens requests closes connects disconnects sends drains = (
    qr_answer-AnswerServed (λ e. open_channel_form (some e)) (open_channel_submit node opens)
        (λ e. open_channel_form-AllServed (some e)),
    qr_answer-AnswerServed (λ e. request_channel_form (some e))
        (request_channel_submit node requests) (λ e. request_channel_form-AllServed (some e)),
    qr_answer-AnswerServed (close_channel_again closes) (close_channel_submit node closes) (λ e.
        close_channel_form-AllServed closes.user_channel_id closes.counterparty_node_id 0 (some e)),
    qr_answer-AnswerServed (λ e. connect_peer_form (some e)) (connect_peer_submit node connects)
        (λ e. connect_peer_form-AllServed (some e)),
    qr_answer-AnswerServed (λ e. disconnect_peer_form disconnects.counterparty_node_id (some e))
        (disconnect_peer_submit node disconnects)
        (λ e. disconnect_peer_form-AllServed disconnects.counterparty_node_id (some e)),
    qr_answer-AnswerServed (λ e. Markup.empty) (onchain_receive_submit node) (λ e. refl),
    link_answer-AnswerServed (λ e. send_bitcoin_form (some e)) (onchain_send_submit node sends)
        (λ e. send_bitcoin_form-AllServed (some e)),
    link_answer-AnswerServed (λ e. drain_wallet_form (some e)) (onchain_drain_submit node drains)
        (λ e. drain_wallet_form-AllServed (some e)),
  )

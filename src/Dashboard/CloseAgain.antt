-- ===== src/Dashboard/CloseAgain.antt =====
-- puncture-daemon/src/ui/lightning.rs: what the label of a form that `close_channel_submit` shows
-- again belongs to, after the answer replaced the form on the page.
use puncture.Common.{
  ℕ, zero, suc, String, Option, none, some, List, [], ◌∷◌, ◌==◌, any, ◌≡◌, refl, if◌then◌else◌,
}
use puncture.Common.Text.{decimal, decimal_from, digit}
use puncture.Operator.{ChannelDetails, Ended, OperatorNode, OperatorCall}
use puncture.Operator.Forms.{CloseChannelForm, try_close_channel, close_channel_submit}
use puncture.Html.{Markup, ◌⋄◌, each}
use puncture.Html.References.{ids_of, references_of}
use puncture.Dashboard.Shared.{copyable_hex_input}
use puncture.Dashboard.Lightning.Forms.{close_channel_form}
use puncture.Dashboard.Lightning.Channels.{
  channel_header, channel_table, close_accordion, channel_with, channel_item,
}
use puncture.Dashboard.Answers.{drawn, close_channel_again, close_channel_answer}

abbrev or_else : Option Markup → Option Markup → Option Markup
or_else none second = second
or_else (some form) second = some form

-- The form around the first element with an id, which is the one that a label of the id belongs to.
unfoldable pub form_around : String → Markup → Option Markup
form_around id Markup.empty = none
form_around id (Markup.escaped s) = none
form_around id (Markup.pre_escaped s) = none
form_around id (Markup.element tag attributes body) =
    let inside = form_around id body in
    if tag == "form"
    then (if any (λ i. i == id) (ids_of body)
        then some (Markup.element tag attributes body)
        else none)
    else inside
form_around id (first ⋄ second) = or_else (form_around id first) (form_around id second)

-- The channels from index i on, where the k-th of them shows the form with an error.
unfoldable pub channels_after :
    (ℕ → String) → CloseChannelForm → String → ℕ → ℕ → List (ChannelDetails × ℕ) → Markup
channels_after as_hex form error k i [] = Markup.empty
channels_after as_hex form error zero i ((channel, percentage) ∷ channels) =
    channel_with as_hex i channel percentage (close_channel_again form error)
    ⋄ each (channel_item as_hex) (suc i) channels
channels_after as_hex form error (suc k) i (channel ∷ channels) =
    channel_item as_hex i channel ⋄ channels_after as_hex form error k (suc i) channels

-- Where a channel cannot be closed, the answer is its form with the error, whose label is that of the
-- id `forceClose-0`. When it replaces the form of any channel but the first, this label belongs to the
-- form of the first channel: ticking it there asks to force the wrong channel to close.
pub close_again_labels_first :
    (qr_svg : String → Option String) (node : OperatorNode) (form : CloseChannelForm)
    (error : String) (calls calls' : List OperatorCall) (first : ChannelDetails) (percentage : ℕ)
    (others : List (ChannelDetails × ℕ)) (k : ℕ)
    → try_close_channel node form calls ≡ (Ended.failed error, calls')
    → (close_channel_answer qr_svg node form calls
        ≡ (Ended.done (close_channel_again form error), calls'))
      × (references_of (close_channel_again form error) ≡ "#forceClose-0" ∷ [])
      × (form_around "forceClose-0" (
            channels_after node.channel_id_as_hex form error
              (suc k)
              0
              ((first, percentage) ∷ others))
          ≡ some (
              close_channel_form
                (node.channel_id_as_hex first.user_channel_id)
                first.counterparty_node_id
                0
                none))
unfolding close_channel_answer close_channel_submit drawn close_channel_again ids_of references_of
    form_around channels_after channel_item channel_with channel_header channel_table
    close_accordion copyable_hex_input close_channel_form decimal decimal_from digit
close_again_labels_first qr_svg node form error calls calls' first percentage others k fails =
    rw fails (refl, refl, refl)

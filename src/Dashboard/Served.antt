-- ===== src/Dashboard/Served.antt =====
-- Every form that the dashboard offers posts to a handler that reads what it sends.
pub mod Pages
pub mod Answers
use puncture.Common.{ℕ, String, true, Option, none, some, ◌≡◌, refl}
use puncture.Html.{Markup}
use puncture.Html.Forms.{all_forms}
use puncture.Dashboard.Router.{is_served}
use puncture.Dashboard.Lightning.Forms.{
  open_channel_form, request_channel_form, close_channel_form, connect_peer_form,
  disconnect_peer_form,
}
use puncture.Dashboard.Onchain.Forms.{receive_bitcoin_form, send_bitcoin_form, drain_wallet_form}
use puncture.Dashboard.Users.Forms.{invite_form, recovery_form_for_user}

-- Every form in the markup posts to a handler that reads what it sends.
abbrev pub AllServed : Markup → Type 0
AllServed markup = all_forms is_served markup ≡ true

pub open_channel_form-AllServed : (error : Option String) → AllServed (open_channel_form error)
unfolding all_forms is_served open_channel_form
open_channel_form-AllServed none = refl
open_channel_form-AllServed (some e) = refl

pub request_channel_form-AllServed :
    (error : Option String) → AllServed (request_channel_form error)
unfolding all_forms is_served request_channel_form
request_channel_form-AllServed none = refl
request_channel_form-AllServed (some e) = refl

pub connect_peer_form-AllServed : (error : Option String) → AllServed (connect_peer_form error)
unfolding all_forms is_served connect_peer_form
connect_peer_form-AllServed none = refl
connect_peer_form-AllServed (some e) = refl

pub disconnect_peer_form-AllServed :
    (id : String) (error : Option String) → AllServed (disconnect_peer_form id error)
unfolding all_forms is_served disconnect_peer_form
disconnect_peer_form-AllServed id none = refl
disconnect_peer_form-AllServed id (some e) = refl

pub close_channel_form-AllServed :
    (channel_id id : String) (i : ℕ) (error : Option String)
    → AllServed (close_channel_form channel_id id i error)
unfolding all_forms is_served close_channel_form
close_channel_form-AllServed channel_id id i none = refl
close_channel_form-AllServed channel_id id i (some e) = refl

pub receive_bitcoin_form-AllServed : AllServed receive_bitcoin_form
unfolding all_forms is_served receive_bitcoin_form
receive_bitcoin_form-AllServed = refl

pub send_bitcoin_form-AllServed : (error : Option String) → AllServed (send_bitcoin_form error)
unfolding all_forms is_served send_bitcoin_form
send_bitcoin_form-AllServed none = refl
send_bitcoin_form-AllServed (some e) = refl

pub drain_wallet_form-AllServed : (error : Option String) → AllServed (drain_wallet_form error)
unfolding all_forms is_served drain_wallet_form
drain_wallet_form-AllServed none = refl
drain_wallet_form-AllServed (some e) = refl

pub invite_form-AllServed : AllServed invite_form
unfolding all_forms is_served invite_form
invite_form-AllServed = refl

pub recovery_form_for_user-AllServed :
    (user_pk : String) (i : ℕ) → AllServed (recovery_form_for_user user_pk i)
unfolding all_forms is_served recovery_form_for_user
recovery_form_for_user-AllServed user_pk i = refl

-- ===== src/System/Admission.antt =====
-- No invite admits more users than its limit, in every state that the daemon reaches.
use puncture.Common.{ℕ, ◌≤◌, String, Bool, ◌≡◌, refl, arith, Option}
use puncture.Models.{Tables}
use puncture.ClientCore.{
  Bolt11ReceiveRequest, Bolt11SendRequest, Bolt12SendRequest, OnchainSendRequest, RecoverRequest,
}
use puncture.Ledger.{create_receive_payment, update_send_status}
use puncture.Codes.{Encoding}
use puncture.ClientDb.{
  get_invite, count_invite_users, create_invoice, create_offer, create_internal_transfer,
  create_send_payment,
}
use puncture.Handler.{Env, World}
use puncture.Rpc.Actions.{push_events}
use puncture.Rpc.Account.{register, set_recovery_name, recover}
use puncture.Rpc.Receive.{bolt11_receive, bolt12_receive}
use puncture.Rpc.Send.{
  pay_user, bolt11_send_to, bolt11_send, bolt12_send_to, bolt12_send, onchain_send,
}
use puncture.Api.{handle_request}
use puncture.Api.Messages.{Codec, ClientRpcRequest}
use puncture.Api.Dispatch.{handle_request_rule, respond_rule}
use puncture.LdkEvents.{Event, PaymentKind, store_receipt, process_ldk_event}
use puncture.Admin.{RecoverUserRequest, user_recover, recovery_submit}
use puncture.Admin.CliDb
use puncture.Admin.UiDb
use puncture.System.{Step, Reach}
use puncture.System.Members.{
  limit_of, IsAdmitted, register-IsAdmitted, set_recovery_name-IsAdmitted, user_invite-IsAdmitted,
  invite_submit-IsAdmitted,
}

-- The rows that decide about admission are as they were.
abbrev pub SameMembers : Tables → Tables → Type 0
SameMembers db' db = (db'.users ≡ db.users) × (db'.invites ≡ db.invites)

pub SameMembers-IsAdmitted : (db' db : Tables) → SameMembers db' db → IsAdmitted db → IsAdmitted db'
unfolding get_invite count_invite_users
SameMembers-IsAdmitted db' db same admitted id = rw (same.0, same.1) (admitted id)

module _ (env : Env) (u : String) (w : World) where
  bolt11_receive-SameMembers :
      (r : Bolt11ReceiveRequest) → SameMembers (bolt11_receive env u r w).1.db w.db
  unfolding bolt11_receive create_invoice
  bolt11_receive-SameMembers r = ground arith

  bolt12_receive-SameMembers : SameMembers (bolt12_receive env u w).1.db w.db
  unfolding bolt12_receive create_offer
  bolt12_receive-SameMembers = ground arith

  recover-SameMembers : (r : RecoverRequest) → SameMembers (recover env u r w).1.db w.db
  unfolding recover push_events create_internal_transfer
  recover-SameMembers r = ground arith

  onchain_send-SameMembers :
      (r : OnchainSendRequest) → SameMembers (onchain_send env u r w).1.db w.db
  unfolding onchain_send push_events create_send_payment
  onchain_send-SameMembers r = ground arith

  bolt11_send-SameMembers : (r : Bolt11SendRequest) → SameMembers (bolt11_send env u r w).1.db w.db
  unfolding bolt11_send bolt11_send_to pay_user push_events create_internal_transfer
      create_send_payment
  bolt11_send-SameMembers r = ground arith

  bolt12_send-SameMembers : (r : Bolt12SendRequest) → SameMembers (bolt12_send env u r w).1.db w.db
  unfolding bolt12_send bolt12_send_to pay_user push_events create_internal_transfer
      create_send_payment
  bolt12_send-SameMembers r = ground arith

process_ldk_event-SameMembers :
    (now : ℕ) (payment : String → Option PaymentKind) (event : Event) (w : World)
    → SameMembers (process_ldk_event now payment event w).1.db w.db
unfolding process_ldk_event store_receipt create_receive_payment update_send_status
process_ldk_event-SameMembers now payment (Event.payment_received id amount) w = ground arith
process_ldk_event-SameMembers now payment (Event.payment_successful id fee) w = ground arith
process_ldk_event-SameMembers now payment (Event.payment_failed id) w = ground arith
process_ldk_event-SameMembers now payment Event.other w = (refl, refl)

module _ (codec : Encoding) (now : ℕ) (id node_id : String) (w : World) where
  user_recover-SameMembers :
      (r : RecoverUserRequest) → SameMembers (user_recover codec now id node_id r w).1.db w.db
  unfolding user_recover CliDb.create_recovery
  user_recover-SameMembers r = ground arith

  recovery_submit-SameMembers :
      (u : String) → SameMembers (recovery_submit codec now id node_id u w).1.db w.db
  unfolding recovery_submit UiDb.create_recovery
  recovery_submit-SameMembers u = ground arith

module _ (codec : Codec) (env : Env) (u : String) (request : ClientRpcRequest) (w : World) where
  abbrev After : Bool → World → Type 0
  After done w' = IsAdmitted w'.db

  handle_request-IsAdmitted :
      IsAdmitted w.db → IsAdmitted (handle_request codec env u request w).1.db
  handle_request-IsAdmitted h =
      handle_request_rule (λ ended. IsAdmitted ended.1.db) w codec env u request (λ e. h)
        (λ r. respond_rule After _ (register env u r) w (register-IsAdmitted env u w h r))
        (λ r.
          respond_rule After _ (bolt11_receive env u r) w
            (same _ (bolt11_receive-SameMembers env u w r)))
        (respond_rule After _ (bolt12_receive env u) w
          (same _ (bolt12_receive-SameMembers env u w)))
        (λ r.
          respond_rule After _ (bolt11_send env u r) w (same _ (bolt11_send-SameMembers env u w r)))
        (λ r.
          respond_rule After _ (bolt12_send env u r) w (same _ (bolt12_send-SameMembers env u w r)))
        (λ r.
          respond_rule After _ (onchain_send env u r) w
            (same _ (onchain_send-SameMembers env u w r)))
        (λ r.
          respond_rule After _ (set_recovery_name env u r) w
            (set_recovery_name-IsAdmitted env u w h r))
        (λ _ r _. respond_rule After _ (recover env u r) w (same _ (recover-SameMembers env u w r)))
    where
      same : (db' : Tables) → SameMembers db' w.db → IsAdmitted db'
      same db' s = SameMembers-IsAdmitted db' w.db s h

Step-IsAdmitted : {w w' : World} → Step w w' → IsAdmitted w.db → IsAdmitted w'.db
Step-IsAdmitted {w} (Step.request codec env u r sane fits) h =
    handle_request-IsAdmitted codec env u r w h
Step-IsAdmitted {w} (Step.ldk_event now payment event) h =
    SameMembers-IsAdmitted _ w.db (process_ldk_event-SameMembers now payment event w) h
Step-IsAdmitted {w} (Step.cli_invite codec now id node_id r) h =
    user_invite-IsAdmitted codec now id node_id r w h
Step-IsAdmitted {w} (Step.cli_recover codec now id node_id r) h =
    SameMembers-IsAdmitted _ w.db (user_recover-SameMembers codec now id node_id w r) h
Step-IsAdmitted {w} (Step.ui_invite codec now id node_id r) h =
    invite_submit-IsAdmitted codec now id node_id r w h
Step-IsAdmitted {w} (Step.ui_recover codec now id node_id u) h =
    SameMembers-IsAdmitted _ w.db (recovery_submit-SameMembers codec now id node_id w u) h

-- In every state that a fresh daemon reaches (under the conditions on options and
-- receipts that a step has), the users registered with an invite are no more than its
-- limit, and no user is registered with an id that is not an invite's.
pub invite_limit_reached :
    {w : World} → Reach w → (id : String) → count_invite_users w.db id ≤ limit_of w.db id
invite_limit_reached Reach.start id = unfold get_invite count_invite_users in omega arith
invite_limit_reached (Reach.next r s) id = Step-IsAdmitted s (invite_limit_reached r) id

-- ===== src/Tests/Runs.antt =====
-- A run of the daemon from its installation.
use puncture.LdkEvents.Credit.{bolt11_receive_credits}
use puncture.Common.Outcome.{ok}
use puncture.Common.{
  ◌+◌, if◌then◌else◌, ◌==◌, ◌-◌, ◌≤◌, ◌<◌, ◌^◌, ◌≡◌, ◌⊎◌, refl, arith, none, some, [], ◌∷◌, Option,
  String,
}
use puncture.Common.Words.{saturating_sub, sum64}
use puncture.Ledger.{
  user_balance, receive_sum, send_sum, get_invoice, create_receive_payment, update_send_status,
  set_status, set_fee,
}
use puncture.Ledger.Balance.{received, spent, Fits}
use puncture.Convert.{invoice_receipt}
use puncture.ClientDb.{
  user_exists, get_invite, count_invite_users, register_user_with_invite, count_pending_invoices,
  count_pending_sends, create_invoice, create_send_payment,
}
use puncture.Node.{Answer}
use puncture.Handler.{World}
use puncture.Api.{handle_request}
use puncture.Api.Messages.{Codec, ClientRpcRequest}
use puncture.Codes.{Encoding}
use puncture.Admin.CliDb
use puncture.Admin.{user_invite}
use puncture.Rpc.Solvency.{IsSane}
use puncture.Rpc.Account.{register}
use puncture.Rpc.Checks.{check_amount_bounds, check_send, fee_of}
use puncture.Rpc.Actions.{push_events}
use puncture.Rpc.Receive.{bolt11_receive}
use puncture.Rpc.Send.{bolt11_send, bolt11_send_to}
use puncture.LdkEvents.{Event, PaymentKind, process_ldk_event, receipt_of, store_receipt}
use puncture.System.{fresh, Step, Reach}
use puncture.System.Solvency.{Overrun, user_balance_reached}
use puncture.System.Admission.{invite_limit_reached}
use puncture.System.Members.{limit_of}
use puncture.Tests.Data.{foreign_invoice, args, env}

abbrev pub codec : Codec
codec = record {
  register = λ text. Answer.granted (record { invite_id = "i1" });
  bolt11_receive = λ text. Answer.granted (record { amount_msat = 5000000; description = "rent" });
  empty = λ text. Answer.granted tt;
  bolt11_send = λ text. Answer.granted (record {
    invoice = record { payment_hash = "h7"; text = "lnbc7"; description = "tea" };
    amount_msat = 1000000;
    ln_address = none;
  });
  bolt12_send = λ text. Answer.refused "no";
  onchain_send = λ text. Answer.refused "no";
  set_recovery_name = λ text. Answer.granted (record { recovery_name = none });
  recover = λ text. Answer.granted (record { recovery_id = "c1" });
}

abbrev encoding : Encoding
encoding = record {
  to_bytes = λ c. 1 ∷ [];
  from_bytes = λ b. Answer.refused "no";
  to_hex = λ b. "01";
  from_hex = λ s. Answer.refused "no";
}

-- The operator makes an invite for two users, and Alice registers with it.
abbrev pub invited : World
invited = (user_invite encoding 100 "i1" "n1" (record { expiry_days = 1; user_limit = 2 }) fresh).1

abbrev joined : World
joined =
    (handle_request codec env "alice" (record { method = "register"; request = "{}" }) invited).1

pub default_IsSane : IsSane args
default_IsSane = omega arith

invited_Fits : Fits invited.db
unfolding user_invite CliDb.create_invite
invited_Fits u = omega arith

pub joined-Reach : Reach joined
joined-Reach =
    Reach.next
      (Reach.next Reach.start
        (Step.cli_invite encoding 100 "i1" "n1" (record { expiry_days = 1; user_limit = 2 })))
      (Step.request codec env "alice" (record { method = "register"; request = "{}" })
        default_IsSane invited_Fits)

alice_joined : count_invite_users joined.db "i1" ≡ 1
unfolding user_invite CliDb.create_invite handle_request register user_exists get_invite
    count_invite_users register_user_with_invite
alice_joined = refl

-- Alice asks for an invoice, is paid, and pays an invoice of another node, which succeeds.
abbrev pub asks : ClientRpcRequest
asks = record { method = "bolt11_receive"; request = "{}" }

abbrev pub asked : World
asked = (handle_request codec env "alice" asks joined).1

abbrev pub known : String → Option PaymentKind
known id = some (PaymentKind.bolt11 "h9")

abbrev pub paid : World
paid = (process_ldk_event 6000 known (Event.payment_received (some "p1") 5000000) asked).1

abbrev pays : ClientRpcRequest
pays = record { method = "bolt11_send"; request = "{}" }

abbrev pub sending : World
sending = (handle_request codec env "alice" pays paid).1

abbrev settlement : Event
settlement = Event.payment_successful (some "h7") (some 12000)

abbrev settled : World
settled = (process_ldk_event 7000 known settlement sending).1

pub joined_Fits : Fits joined.db
unfolding user_invite CliDb.create_invite handle_request register user_exists get_invite
    count_invite_users register_user_with_invite bolt11_receive count_pending_invoices
    check_amount_bounds create_invoice process_ldk_event receipt_of store_receipt get_invoice
    invoice_receipt create_receive_payment bolt11_send bolt11_send_to push_events check_send fee_of
    count_pending_sends user_balance receive_sum send_sum saturating_sub sum64 create_send_payment
    update_send_status set_status set_fee
joined_Fits u = omega arith

paid_Fits : Fits paid.db
unfolding user_invite CliDb.create_invite handle_request register user_exists get_invite
    count_invite_users register_user_with_invite bolt11_receive count_pending_invoices
    check_amount_bounds create_invoice process_ldk_event receipt_of store_receipt get_invoice
    invoice_receipt create_receive_payment bolt11_send bolt11_send_to push_events check_send fee_of
    count_pending_sends user_balance receive_sum send_sum saturating_sub sum64 create_send_payment
    update_send_status set_status set_fee
paid_Fits u = ground arith

pub paid-Reach : Reach paid
paid-Reach =
    Reach.next
      (Reach.next joined-Reach (Step.request codec env "alice" asks default_IsSane joined_Fits))
      (Step.ldk_event 6000 known (Event.payment_received (some "p1") 5000000))

-- Alice pays.
pub pays_step : Step paid sending
pays_step = Step.request codec env "alice" pays default_IsSane paid_Fits

settled-Reach : Reach settled
settled-Reach = Reach.next (Reach.next paid-Reach pays_step) (Step.ldk_event 7000 known settlement)

alice_settled : user_balance settled.db "alice" ≡ 3988000
unfolding user_invite CliDb.create_invite handle_request register user_exists get_invite
    count_invite_users register_user_with_invite bolt11_receive count_pending_invoices
    check_amount_bounds create_invoice process_ldk_event receipt_of store_receipt get_invoice
    invoice_receipt create_receive_payment bolt11_send bolt11_send_to push_events check_send fee_of
    count_pending_sends user_balance receive_sum send_sum saturating_sub sum64 create_send_payment
    update_send_status set_status set_fee
alice_settled = refl

received_little : received "alice" settled.db.receives < 2 ^ 63
unfolding user_invite CliDb.create_invite handle_request register user_exists get_invite
    count_invite_users register_user_with_invite bolt11_receive count_pending_invoices
    check_amount_bounds create_invoice process_ldk_event receipt_of store_receipt get_invoice
    invoice_receipt create_receive_payment bolt11_send bolt11_send_to push_events check_send fee_of
    count_pending_sends user_balance receive_sum send_sum saturating_sub sum64 create_send_payment
    update_send_status set_status set_fee
received_little = omega arith

user_balance_reached_example :
    Overrun settled
    ⊎ (spent "alice" settled.db.sends ≤ received "alice" settled.db.receives)
      × (user_balance settled.db "alice"
          ≡ received "alice" settled.db.receives - spent "alice" settled.db.sends)
user_balance_reached_example = user_balance_reached settled-Reach "alice" received_little

invite_limit_reached_example : count_invite_users joined.db "i1" ≤ limit_of joined.db "i1"
invite_limit_reached_example = invite_limit_reached joined-Reach "i1"

asked_done :
    (bolt11_receive env "alice" (record { amount_msat = 5000000; description = "rent" }) joined).0
    ≡ ok foreign_invoice
unfolding user_invite CliDb.create_invite handle_request register user_exists get_invite
    count_invite_users register_user_with_invite bolt11_receive count_pending_invoices
    check_amount_bounds create_invoice process_ldk_event receipt_of store_receipt get_invoice
    invoice_receipt create_receive_payment bolt11_send bolt11_send_to push_events check_send fee_of
    count_pending_sends user_balance receive_sum send_sum saturating_sub sum64 create_send_payment
    update_send_status set_status set_fee
asked_done = refl

bolt11_receive_credits_example :
    let w' =
      (bolt11_receive env "alice"
        (record { amount_msat = 5000000; description = "rent" })
        joined).1 in
    let ended = process_ldk_event 6000 known (Event.payment_received (some "p1") 5000000) w' in
    (ended.0 ≡ ok tt)
    × ((v : String)
        → (received v ended.1.db.receives
            ≡ received v joined.db.receives + (if "alice" == v then 5000000 else 0))
          × (spent v ended.1.db.sends ≡ spent v joined.db.sends))
unfolding user_invite CliDb.create_invite handle_request register user_exists get_invite
    count_invite_users register_user_with_invite
bolt11_receive_credits_example =
    bolt11_receive_credits env "alice" (record { amount_msat = 5000000; description = "rent" })
      joined foreign_invoice asked_done 6000 known "p1" 5000000 refl refl

-- ===== src/Tests/Clients.antt =====
-- A client of the small daemon, and texts that it pays.
use puncture.Common.{
  arith, String, true, false, ◌≡◌, refl, Option, some, none, [], ◌∷◌, ◌==◌, if◌then◌else◌,
}
use puncture.Common.Words.{saturating_sub, sum64}
use puncture.Ledger.{user_balance, receive_sum, send_sum, get_invoice, get_offer}
use puncture.Rpc.Checks.{check_amount_bounds, check_send, fee_of}
use puncture.Rpc.Actions.{push_events}
use puncture.ClientDb.{
  user_exists, get_invite, count_invite_users, register_user_with_invite, count_pending_invoices,
  count_pending_sends, create_invoice, create_send_payment, create_offer, get_offer_by_user_pk,
  create_internal_transfer, get_recovery,
}
use puncture.Admin.{user_invite}
use puncture.Admin.CliDb
use puncture.Node.{Answer}
use puncture.Codes.{InviteCode, RecoveryCode}
use puncture.Rpc.Receive
use puncture.Rpc.Send
use puncture.Rpc.Send.{bolt11_send_to, bolt12_send_to}
use puncture.Rpc.Account
use puncture.Api.{handle_request}
use puncture.Api.Messages.{Codec, Response}
use puncture.PaymentRequest.{PaymentRequestWithAmount, PaymentRequestWithoutAmount, invoice_request}
use puncture.PaymentRequest.Parse.{
  Parsers, parse_with_amount, parse_without_amount, read_with_amount, read_without_amount,
}
use puncture.PaymentRequest.Parse.Returns.{body, with_prefixes, without_prefixes, parse_returns}
use puncture.PaymentRequest.Parse.Invoices.{linked, invoice_parsed_once}
use puncture.Client
use puncture.Client.{Writer, Reader, Delivery, request_json}
use puncture.Client.Store.{DaemonRecord, delete_daemon}
use puncture.Client.Registration.{ReadsRegistered, is_saved, register_recorded}
use puncture.Client.Reaches.{client_calls_daemon}
use puncture.Client.Calls.{
  shown, pay_request, receive_request, offer_request, onchain_request, name_request,
  recover_request, IsAnswered,
}
use puncture.Client.Reconnect.{Phase, Task, TaskStep, TaskReach, backoff_duration}
use puncture.Tests.Data.{env, shop, foreign_invoice, bare_offer, book_invoice}
use puncture.Tests.Runs.{invited}

-- Every text is an invoice for 2000 msat.
abbrev parsers : Parsers
parsers = record {
  invoice = λ text. some foreign_invoice;
  amount_milli_satoshis = λ i. some 2000;
  offer = λ text. none;
  amount = λ o. none;
  ln_url = λ text. none;
  lightning_address = λ text. none;
  address = λ text. none;
}

parse_returns_example :
    ((r : Option PaymentRequestWithAmount) × (parse_with_amount parsers "lightning:lightning:lnbc9"
        ≡ some r))
    × ((r : Option PaymentRequestWithoutAmount) × (parse_without_amount parsers
            "lightning:lightning:lnbc9"
          ≡ some r))
    × (parse_with_amount parsers "lightning:lightning:lnbc9"
        ≡ body with_prefixes
            (read_with_amount parsers)
            (parse_with_amount parsers)
            "lightning:lightning:lnbc9")
    × (parse_without_amount parsers "lightning:lightning:lnbc9"
        ≡ body without_prefixes
            (read_without_amount parsers)
            (parse_without_amount parsers)
            "lightning:lightning:lnbc9")
parse_returns_example = parse_returns parsers "lightning:lightning:lnbc9"

invoice_parsed_once_example :
    (parse_with_amount parsers (linked 2 "lnbc9")
      ≡ some (some (invoice_request 2000 none foreign_invoice)))
    × (parse_without_amount parsers (linked 2 "lnbc9") ≡ some none)
invoice_parsed_once_example =
    invoice_parsed_once parsers "lnbc9" foreign_invoice 2
      (record {
        is_invoice = refl;
        no_offer = refl;
        no_ln_url = refl;
        no_lightning_address = refl;
        no_address = refl;
      })
      refl

abbrev writer : Writer
writer = record {
  register = λ r. "register";
  bolt11_receive = λ r. r.description;
  empty = "null";
  bolt11_send = λ r. "pay";
  bolt12_send = λ r. r.offer;
  onchain_send = λ r. r.address;
  set_recovery_name = λ r. "no name";
  recover = λ r. r.recovery_id;
}

abbrev codec : Codec
codec = record {
  register = λ text. Answer.granted (record { invite_id = "i1" });
  bolt11_receive = λ text. Answer.granted (record { amount_msat = 70000; description = text });
  empty = λ text. Answer.granted tt;
  bolt11_send = λ text. Answer.granted book_invoice;
  bolt12_send = λ text. Answer.granted (record { offer = text; amount_msat = 5000 });
  onchain_send = λ text. Answer.granted (record { address = text; amount_sats = 1500 });
  set_recovery_name = λ text. Answer.granted (record { recovery_name = none });
  recover = λ text. Answer.granted (record { recovery_id = text });
}

-- A response is written as its kind, and an error as it is.
abbrev to_vec : Answer Response → String
to_vec (Answer.granted (Response.registered r)) = "registered"
to_vec (Answer.granted (Response.invoice i)) = "invoice"
to_vec (Answer.granted (Response.offer o)) = "offer"
to_vec (Answer.granted Response.done) = "done"
to_vec (Answer.granted (Response.txid t)) = "txid"
to_vec (Answer.granted (Response.recovered b)) = "recovered"
to_vec (Answer.refused e) = e

-- The text of a kind is the one response of this kind, and any other text an error.
abbrev read_kind : {T : Type 0} → String → T → String → Option (Answer T)
read_kind kind t text = some (if text == kind then Answer.granted t else Answer.refused text)

abbrev reader : Reader
reader = record {
  registered = read_kind "registered" (record { network = "regtest"; name = "test" });
  invoice = read_kind "invoice" foreign_invoice;
  offer = read_kind "offer" "lno9";
  done = read_kind "done" tt;
  txid = read_kind "txid" "tx1";
  recovered = read_kind "recovered" 4789000;
}

abbrev code : RecoveryCode
code = record { id = "c1" }

alice_known : user_exists shop.db "alice" ≡ true
unfolding user_exists
alice_known = refl

-- Paying an offer without a description panics in the daemon; the other calls succeed.
answered :
    IsAnswered to_vec reader env "alice" shop
      (receive_request 70000 "rent")
      (pay_request foreign_invoice 1000000 none)
      (offer_request bare_offer 5000)
      (onchain_request "bc1" 1500)
      (name_request none)
      (recover_request code)
unfolding Receive.bolt11_receive Receive.bolt12_receive Send.bolt11_send Send.bolt12_send
    Send.onchain_send Account.set_recovery_name Account.recover count_pending_invoices
    check_amount_bounds create_invoice check_send count_pending_sends user_balance receive_sum
    send_sum fee_of saturating_sub sum64 bolt11_send_to get_invoice create_send_payment push_events
    get_offer_by_user_pk create_offer bolt12_send_to get_offer get_recovery create_internal_transfer
answered = record {
  bolt11_receive = refl;
  bolt11_send = refl;
  bolt12_receive = refl;
  bolt12_send = tt;
  onchain_send = refl;
  set_recovery_name = refl;
  recover = refl;
}

client_calls_daemon_example :
    let daemon = handle_request codec env "alice" in
    let on : Option Delivery = some Delivery.delivered in
    (Client.bolt11_receive writer reader to_vec daemon on 70000 "rent" shop
      ≡ shown (Receive.bolt11_receive env "alice" (receive_request 70000 "rent")) shop)
    × (Client.bolt11_send writer reader to_vec daemon on foreign_invoice 1000000 none shop
        ≡ shown (Send.bolt11_send env "alice" (pay_request foreign_invoice 1000000 none)) shop)
    × (Client.bolt12_receive writer reader to_vec daemon on shop
        ≡ shown (Receive.bolt12_receive env "alice") shop)
    × (Client.bolt12_send writer reader to_vec daemon on bare_offer 5000 shop
        ≡ shown (Send.bolt12_send env "alice" (offer_request bare_offer 5000)) shop)
    × (Client.onchain_send writer reader to_vec daemon on "bc1" 1500 shop
        ≡ shown (Send.onchain_send env "alice" (onchain_request "bc1" 1500)) shop)
    × (Client.set_recovery_name writer reader to_vec daemon on none shop
        ≡ shown (Account.set_recovery_name env "alice" (name_request none)) shop)
    × (Client.recover writer reader to_vec daemon on code shop
        ≡ shown (Account.recover env "alice" (recover_request code)) shop)
client_calls_daemon_example =
    client_calls_daemon codec writer reader to_vec env "alice" shop 70000 1000000 5000 1500 "rent"
      "bc1" foreign_invoice none none bare_offer code alice_known
      (record {
        bolt11_receive = refl;
        bolt11_send = refl;
        bolt12_receive = refl;
        bolt12_send = refl;
        onchain_send = refl;
        set_recovery_name = refl;
        recover = refl;
      })
      answered

abbrev invite_1 : InviteCode
invite_1 = record { id = "i1"; node_id = "n1" }

abbrev other_daemon : DaemonRecord
other_daemon = record { node_id = "n2"; network = "regtest"; name = "second"; created_at = 40 }

alice_registers :
    (Client.register writer reader to_vec
      (handle_request codec env "alice")
      60
      (some Delivery.delivered)
      invite_1
      (other_daemon ∷ [])
      invited).0.0
    ≡ Answer.granted tt
unfolding Client.register request_json handle_request Account.register user_exists get_invite
    count_invite_users register_user_with_invite user_invite CliDb.create_invite
alice_registers = refl

alice_reads :
    ReadsRegistered to_vec reader
      (handle_request codec env "alice"
        (record { method = "register"; request = "register" })
        invited).0
unfolding handle_request Account.register user_exists get_invite count_invite_users
    register_user_with_invite user_invite CliDb.create_invite
alice_reads response read = ground arith

register_recorded_example :
    let ((answer, daemons), w) =
      Client.register writer reader to_vec
        (handle_request codec env "alice")
        60
        (some Delivery.delivered)
        invite_1
        (other_daemon ∷ [])
        invited in
    (user_exists w.db "alice" ≡ true)
    × (is_saved "n1" daemons ≡ true)
    × (delete_daemon "n1" daemons ≡ delete_daemon "n1" (other_daemon ∷ []))
register_recorded_example =
    register_recorded codec writer reader to_vec env "alice" 60 invite_1 (other_daemon ∷ []) invited
      (some Delivery.delivered) alice_reads alice_registers

-- The first two attempts to connect fail.
abbrev waiting : Task
waiting = record { phase = Phase.sleeping (backoff_duration 2); next = 3; sent = false }

waiting-Reach : TaskReach waiting
waiting-Reach =
    TaskReach.step
      (TaskReach.step (TaskReach.step TaskReach.start (TaskStep.fails 1 false))
        (TaskStep.wakes (backoff_duration 1) 2 false))
      (TaskStep.fails 2 false)

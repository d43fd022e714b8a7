-- ===== src/LdkEvents.antt =====
-- puncture-daemon/src/main.rs, `process_ldk_event`: what the daemon does when the node reports a
-- payment. The answer of the node's payment store is a parameter.
pub mod Solvency
pub mod Replay
pub mod Settlement
pub mod Slots
pub mod Credit
pub mod Loop
use puncture.Common.{ℕ, String, Option, none, some, true, leb, ◌&&◌, if◌then◌else◌}
use puncture.Common.Outcome.{Outcome, ok, err, panic, ok_or, expect}
use puncture.Models.{ReceiveRecord, SendRecord, Tables}
use puncture.Convert.{received_payment, invoice_receipt, offer_receipt}
use puncture.Ledger
use puncture.Handler.{M, ◌>>=◌, ◌>>◌, lift, reads, writes}
use puncture.Events.{send_balance_event, send_payment_event, send_update_event}

-- ldk_node::Event, the cases that the daemon reads.
pub data Event : Type 0 where
  payment_received : Option String → ℕ → Event
  payment_successful : Option String → Option ℕ → Event
  payment_failed : Option String → Event
  other : Event

-- ldk_node::payment::PaymentKind
pub data PaymentKind : Type 0 where
  bolt11 : String → PaymentKind
  bolt12_offer : String → PaymentKind
  unexpected : PaymentKind

-- `.unwrap()` of a missing value
abbrev unwrap {ℓ} : {A : Type ℓ} → Option A → Outcome A
unwrap o = expect o "called `Option::unwrap()` on a `None` value"

-- The receipt that a kind of payment stands for.
unfoldable pub receipt_of : ℕ → PaymentKind → String → ℕ → Tables → Outcome ReceiveRecord
receipt_of now (PaymentKind.bolt11 hash) id amount_msat db = elim (Ledger.get_invoice db hash) [
  | none ↦ err "Invoice not found"
  | some invoice ↦ ok (invoice_receipt now invoice id amount_msat)
]
receipt_of now (PaymentKind.bolt12_offer offer_id) id amount_msat db =
    elim (Ledger.get_offer db offer_id) [
      | none ↦ err "Offer not found"
      | some offer ↦ ok (offer_receipt now offer id amount_msat)
    ]
receipt_of now PaymentKind.unexpected id amount_msat db = err "Unexpected payment kind"

-- The balance of the row's user, then the new status of the payment.
abbrev push_update : SendRecord → String → ℕ → M (Unit {0})
push_update row status fee_msat = do
  balance_msat ← reads (λ db. ok (Ledger.user_balance db row.user_pk))
  send_balance_event row.user_pk balance_msat
  send_update_event row.user_pk row.id status fee_msat

-- The end of `Event::PaymentReceived`: the receipt is stored and announced.
unfoldable pub store_receipt : ℕ → ReceiveRecord → M (Unit {0})
store_receipt amount_msat row = do
  -- `assert_eq!(record.amount_msat as u64, amount_msat)`
  lift (
      if leb row.amount_msat amount_msat && leb amount_msat row.amount_msat
      then ok tt
      else panic "assertion `left == right` failed")
  writes (λ db. ok (tt, Ledger.create_receive_payment db row))
  balance_msat ← reads (λ db. ok (Ledger.user_balance db row.user_pk))
  send_balance_event row.user_pk balance_msat
  send_payment_event row.user_pk (received_payment row true)

-- `node.payment(…)` is `payment`, the kind of the payment if the node knows it.
unfoldable pub process_ldk_event : ℕ → (String → Option PaymentKind) → Event → M (Unit {0})
process_ldk_event now payment (Event.payment_received payment_id amount_msat) = do
  id ← lift (unwrap payment_id)
  kind ← lift (ok_or (payment id) "Payment not found")
  row ← reads (receipt_of now kind id amount_msat)
  store_receipt amount_msat row
process_ldk_event now payment (Event.payment_successful payment_id fee_paid_msat) = do
  id ← lift (unwrap payment_id)
  fee_msat ← lift (unwrap fee_paid_msat)
  found ← writes (λ db. ok (Ledger.update_send_status db id "successful" fee_msat))
  row ← lift (ok_or found "successful payment not found")
  push_update row "successful" fee_msat
process_ldk_event now payment (Event.payment_failed payment_id) = do
  id ← lift (unwrap payment_id)
  found ← writes (λ db. ok (Ledger.update_send_status db id "failed" 0))
  row ← lift (ok_or found "failed payment not found")
  push_update row "failed" 0
process_ldk_event now payment Event.other = lift (ok tt)

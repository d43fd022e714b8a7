-- ===== src/Rpc/Send.antt =====
-- Payments: of invoices and offers, inside the daemon or by the node, and on chain.
use puncture.Common.{ℕ, String, true, Option, none, some, ltb, ◌==◌}
use puncture.Common.Outcome.{Outcome, ok, expect, fail_if}
use puncture.Common.Words.{add64, mul64}
use puncture.Models.{InvoiceRecord, OfferRecord}
use puncture.ClientCore.{Offer, Bolt11SendRequest, Bolt12SendRequest, OnchainSendRequest}
use puncture.Convert.{received_payment, sent_payment}
use puncture.Ledger
use puncture.ClientDb
use puncture.Node.{NodeCall, error_text, error_as}
use puncture.Handler.{Env, M, ◌>>=◌, ◌>>◌, pure, lift, reads, writes, call}
use puncture.Rpc.Checks.{check_send}
use puncture.Rpc.Actions.{push_events}

-- `if let Some(amount_msat) = … { if amount_msat > amount { return Err(…) } }`
abbrev pub check_minimum : Option ℕ → ℕ → String → Outcome (Unit {0})
check_minimum none amount message = ok tt
check_minimum (some amount_msat) amount message = fail_if (ltb amount amount_msat) message

-- The fee of a payment between two users of the daemon.
abbrev pub internal_fee_msat : ℕ
internal_fee_msat = 1000

-- A transfer to the owner of a request that this daemon has issued, and the four events of it.
unfoldable pub pay_user : Env → String → String → ℕ → ℕ → String → String → M (Unit {0})
pay_user env user_pk payee_pk amount_msat fee_msat pr description = do
  rows ← writes (
      ClientDb.create_internal_transfer env.now env.transfer_id user_pk payee_pk amount_msat
        fee_msat pr description)
  push_events user_pk (sent_payment rows.0 true)
  push_events payee_pk (received_payment rows.1 true)

unfoldable pub bolt11_send_to :
    Env → String → Bolt11SendRequest → ℕ → Option InvoiceRecord → M (Unit {0})
bolt11_send_to env user_pk request fee_msat (some invoice) = do
  lift (fail_if (invoice.user_pk == user_pk) "This is your own invoice")
  lift (
      check_minimum invoice.amount_msat request.amount_msat
        "Amount is lower than the invoice's minimum amount")
  pay_user env user_pk invoice.user_pk request.amount_msat internal_fee_msat invoice.pr
      invoice.description
bolt11_send_to env user_pk request fee_msat none = do
  call (NodeCall.bolt11_send request.invoice request.amount_msat)
  payment_id ← lift (error_text (env.node.bolt11_send request.invoice request.amount_msat))
  row ← writes (
      ClientDb.create_send_payment env.now payment_id user_pk request.amount_msat fee_msat
        request.invoice.description request.invoice.text "pending" request.ln_address)
  push_events user_pk (sent_payment row true)

unfoldable pub bolt11_send : Env → String → Bolt11SendRequest → M (Unit {0})
bolt11_send env user_pk request = do
  fee_msat ← reads (check_send env.args user_pk request.amount_msat)
  found ← reads (λ db. ok (Ledger.get_invoice db request.invoice.payment_hash))
  bolt11_send_to env user_pk request fee_msat found

unfoldable pub bolt12_send_to :
    Env → String → Bolt12SendRequest → ℕ → Offer → Option OfferRecord → M (Unit {0})
bolt12_send_to env user_pk request fee_msat offer (some row) = do
  lift (fail_if (row.user_pk == user_pk) "This is your own payment request")
  lift (
      check_minimum row.amount_msat request.amount_msat
        "Amount is lower than the offer's minimum amount")
  pay_user env user_pk row.user_pk request.amount_msat internal_fee_msat row.pr row.description
bolt12_send_to env user_pk request fee_msat offer none = do
  call (NodeCall.bolt12_send offer request.amount_msat)
  payment_id ← lift (error_text (env.node.bolt12_send offer request.amount_msat))
  -- `offer.description().unwrap()`
  description ← lift (expect offer.description "called `Option::unwrap()` on a `None` value")
  row ← writes (
      ClientDb.create_send_payment env.now payment_id user_pk request.amount_msat fee_msat
        description offer.text "pending" none)
  push_events user_pk (sent_payment row true)

unfoldable pub bolt12_send : Env → String → Bolt12SendRequest → M (Unit {0})
bolt12_send env user_pk request = do
  fee_msat ← reads (check_send env.args user_pk request.amount_msat)
  offer ← lift (error_as "Invalid offer" (env.node.parse_offer request.offer))
  found ← reads (λ db. ok (Ledger.get_offer db offer.id))
  bolt12_send_to env user_pk request fee_msat offer found

unfoldable pub onchain_send : Env → String → OnchainSendRequest → M String
onchain_send env user_pk request = do
  lift (fail_if (ltb request.amount_sats 1000) "The minimum amount is 1000 sats")
  balance_msat ← reads (λ db. ok (Ledger.user_balance db user_pk))
  lift (
      fail_if (ltb balance_msat (mul64 request.amount_sats 1000))
        "Insufficient balance to cover the amount")
  lift (
      fail_if
        (ltb balance_msat (add64 (mul64 request.amount_sats 1000) env.args.onchain_base_fee_msat))
        "Insufficient balance to cover the fee")
  address ← lift (error_as "Invalid address for network" (env.node.require_network request.address))
  call (NodeCall.onchain_send address request.amount_sats)
  txid ←
      lift (error_as "Failed to send payment" (env.node.onchain_send address request.amount_sats))
  row ← writes (
      ClientDb.create_send_payment env.now txid user_pk (mul64 request.amount_sats 1000)
        env.args.onchain_base_fee_msat "" address "successful" none)
  push_events user_pk (sent_payment row true)
  pure txid

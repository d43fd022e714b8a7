-- ===== src/Rpc/Receive.antt =====
-- Invoices and offers.
use puncture.Common.{ℕ, ◌+◌, ◌*◌, String, Option, none, some, ltb, leb, if◌then◌else◌}
use puncture.Common.Outcome.{ok, fail_if}
use puncture.Models.{OfferRecord}
use puncture.ClientCore.{Bolt11Invoice, Bolt11ReceiveRequest}
use puncture.ClientDb
use puncture.Node.{NodeCall, error_text, error_as}
use puncture.Handler.{Env, M, ◌>>=◌, ◌>>◌, pure, lift, reads, writes, call}
use puncture.Rpc.Checks.{check_amount_bounds}

unfoldable pub bolt11_receive : Env → String → Bolt11ReceiveRequest → M Bolt11Invoice
bolt11_receive env user_pk request = do
  pending ← reads (λ db. ok (ClientDb.count_pending_invoices env.now db user_pk))
  lift (fail_if (leb env.args.max_pending_payments_per_user pending) "Too many pending invoices")
  lift (check_amount_bounds env.args request.amount_msat)
  description ← lift (error_text (env.node.description request.description))
  call (NodeCall.bolt11_receive request.amount_msat description env.args.invoice_expiry_secs)
  invoice ← lift (
      error_as "Failed to create invoice"
        (env.node.bolt11_receive request.amount_msat description env.args.invoice_expiry_secs))
  writes (
      ClientDb.create_invoice env.now user_pk invoice request.amount_msat request.description
        env.args.invoice_expiry_secs)
  pure invoice

-- One day in milliseconds.
abbrev pub day_ms : ℕ
day_ms = 24 * 60 * 60 * 1000

-- The offer of the last day, if there is one.
abbrev recent : ℕ → Option OfferRecord → Option String
recent now none = none
recent now (some row) = if ltb now (row.created_at + day_ms) then some row.pr else none

abbrev new_offer : Env → String → Option String → M String
new_offer env user_pk (some pr) = pure pr
new_offer env user_pk none = do
  call NodeCall.bolt12_receive
  offer ← lift (error_as "Failed to create offer" env.node.bolt12_receive)
  writes (ClientDb.create_offer env.now user_pk offer none "" none)
  pure offer.text

unfoldable pub bolt12_receive : Env → String → M String
bolt12_receive env user_pk = do
  found ← reads (λ db. ok (recent env.now (ClientDb.get_offer_by_user_pk db user_pk)))
  new_offer env user_pk found

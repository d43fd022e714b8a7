-- ===== src/PaymentRequest/Amounts.antt =====
-- The amount of a resolved request, and the bounds that an LNURL endpoint states.
use puncture.Common.{ℕ, ◌+◌, ◌≤◌, ◌<◌, ◌^◌, String, ◌≡◌, ◌↔◌, arith}
use puncture.Common.Outcome.{ok}
use puncture.Common.Text.{◌<>◌, decimal}
use puncture.ClientCore.{Bolt11Invoice}
use puncture.Node.{Answer}
use puncture.PaymentRequest.{
  Http, LnUrlPayResponse, PaymentRequestWithAmount, PaymentRequestWithoutAmount, amount_msat,
  resolve_endpoint, resolve,
}

-- A request that is resolved for an amount below 2 ^ 64 asks for at most this amount, and for less
-- than one satoshi below it.
pub resolve_amount :
    (http : Http) (request : PaymentRequestWithoutAmount) (amount : ℕ)
    (r : PaymentRequestWithAmount)
    → amount < 2 ^ 64
    → resolve http request amount ≡ ok r
    → (amount_msat r ≤ amount) × (amount < amount_msat r + 1000)
unfolding resolve amount_msat
resolve_amount http (PaymentRequestWithoutAmount.bolt11 i) amount r h e = ground arith
resolve_amount http (PaymentRequestWithoutAmount.bolt12 o) amount r h e = ground arith
resolve_amount http (PaymentRequestWithoutAmount.ln_url url) amount r h e = ground arith
resolve_amount http (PaymentRequestWithoutAmount.lightning_address a) amount r h e = ground arith
resolve_amount http (PaymentRequestWithoutAmount.onchain a) amount r h e = ground arith

-- Where an endpoint answers with its callback and its bounds, an invoice is returned exactly for an
-- amount within the bounds, and it is the one that the callback answers for that amount.
pub resolve_endpoint_iff :
    (http : Http) (endpoint : String) (amount : ℕ) (response : LnUrlPayResponse)
    (invoice : Bolt11Invoice)
    → http.pay endpoint ≡ Answer.granted (Answer.granted response)
    → (resolve_endpoint http endpoint amount ≡ ok invoice) ↔ (
        (response.min_sendable ≤ amount)
        × (amount ≤ response.max_sendable)
        × (http.invoice (response.callback <> "?amount=" <> decimal amount)
            ≡ Answer.granted (Answer.granted invoice)))
unfolding resolve_endpoint
resolve_endpoint_iff http endpoint amount response invoice e =
    (λ done. ground arith, λ conditions. ground arith)

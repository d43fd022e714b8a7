-- ===== src/PaymentRequest.antt =====
-- puncture-payment-request/src/lib.rs: what a client pays, and `resolve`, which turns a request
-- without an amount into one that can be paid. The answers of HTTP are parameters.
pub mod Amounts
pub mod Parse
use puncture.Common.{ℕ, ◌/◌, String, Option, none, some, ltb}
use puncture.Common.Outcome.{Outcome, ok, err, ◌>>=◌, ◌>>◌, fail_if}
use puncture.Common.Words.{mul64}
use puncture.Common.Text.{◌<>◌, decimal}
use puncture.ClientCore.{Bolt11Invoice, Offer}
use puncture.Node.{Answer, error_as}

pub record Bolt11PaymentRequest : Type 0 where
  pub invoice : Bolt11Invoice
  pub amount_msat : ℕ
  pub ln_address : Option String

pub record Bolt12PaymentRequest : Type 0 where
  pub offer : Offer
  pub amount_msat : ℕ

pub record OnchainPaymentRequest : Type 0 where
  pub address : String
  pub amount_sats : ℕ

pub data PaymentRequestWithAmount : Type 0 where
  bolt11 : Bolt11PaymentRequest → PaymentRequestWithAmount
  bolt12 : Bolt12PaymentRequest → PaymentRequestWithAmount
  onchain : OnchainPaymentRequest → PaymentRequestWithAmount

unfoldable pub amount_msat : PaymentRequestWithAmount → ℕ
amount_msat (PaymentRequestWithAmount.bolt11 request) = request.amount_msat
amount_msat (PaymentRequestWithAmount.bolt12 request) = request.amount_msat
amount_msat (PaymentRequestWithAmount.onchain request) = mul64 request.amount_sats 1000

-- lnurl_pay::LnUrl, and LightningAddress with its `to_string()`.
pub record LnUrl : Type 0 where
  pub endpoint : String

pub record LightningAddress : Type 0 where
  pub endpoint : String
  pub text : String

pub data PaymentRequestWithoutAmount : Type 0 where
  bolt11 : Bolt11Invoice → PaymentRequestWithoutAmount
  bolt12 : Offer → PaymentRequestWithoutAmount
  ln_url : LnUrl → PaymentRequestWithoutAmount
  lightning_address : LightningAddress → PaymentRequestWithoutAmount
  onchain : String → PaymentRequestWithoutAmount

pub record LnUrlPayResponse : Type 0 where
  pub callback : String
  pub min_sendable : ℕ
  pub max_sendable : ℕ

-- `reqwest::get(url).await`, and `.json().await` of its response, for the two calls.
pub record Http : Type 0 where
  pub pay : String → Answer (Answer LnUrlPayResponse)
  pub invoice : String → Answer (Answer Bolt11Invoice)

unfoldable pub resolve_endpoint : Http → String → ℕ → Outcome Bolt11Invoice
resolve_endpoint http endpoint amount = do
  body ← error_as "Failed to fetch LNURL" (http.pay endpoint)
  response ← error_as "Failed to parse LNURL response" body
  fail_if (ltb amount response.min_sendable) "Amount too low"
  fail_if (ltb response.max_sendable amount) "Amount too high"
  let callback_url = response.callback <> "?amount=" <> decimal amount
  callback_body ← error_as "Failed to fetch LNURL callback" (http.invoice callback_url)
  error_as "Failed to parse LNURL callback response" callback_body

-- An invoice with the amount that is to be paid.
abbrev pub invoice_request : ℕ → Option String → Bolt11Invoice → PaymentRequestWithAmount
invoice_request amount ln_address invoice =
    PaymentRequestWithAmount.bolt11
      (record { invoice = invoice; amount_msat = amount; ln_address = ln_address })

unfoldable pub resolve : Http → PaymentRequestWithoutAmount → ℕ → Outcome PaymentRequestWithAmount
resolve http (PaymentRequestWithoutAmount.bolt11 invoice) amount =
    ok (invoice_request amount none invoice)
resolve http (PaymentRequestWithoutAmount.bolt12 offer) amount =
    ok (PaymentRequestWithAmount.bolt12 (record { offer = offer; amount_msat = amount }))
resolve http (PaymentRequestWithoutAmount.ln_url url) amount = do
  invoice ← resolve_endpoint http url.endpoint amount
  ok (invoice_request amount none invoice)
resolve http (PaymentRequestWithoutAmount.lightning_address address) amount = do
  invoice ← resolve_endpoint http address.endpoint amount
  ok (invoice_request amount (some address.text) invoice)
resolve http (PaymentRequestWithoutAmount.onchain address) amount =
    ok
      (PaymentRequestWithAmount.onchain (record { address = address; amount_sats = amount / 1000 }))

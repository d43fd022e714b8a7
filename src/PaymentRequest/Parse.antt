-- ===== src/PaymentRequest/Parse.antt =====
-- puncture-payment-request/src/lib.rs: the texts that a client pays, `parse_with_amount` and
-- `parse_without_amount`. The parsers of the libraries are parameters.
pub mod Returns
pub mod Invoices
use text.Mathlib.Text.{starts_with}
use Prim.Native.String.{len, slice}
use puncture.Common.{ℕ, zero, suc, String, Option, none, some, List, [], ◌∷◌, if◌then◌else◌}
use puncture.ClientCore.{Bolt11Invoice, Offer}
use puncture.PaymentRequest.{
  LnUrl, LightningAddress, PaymentRequestWithAmount, PaymentRequestWithoutAmount, invoice_request,
}

-- lightning::offers::offer::Amount
pub data Amount : Type 0 where
  bitcoin : ℕ → Amount
  currency : Amount

-- `from_str(…).ok()` of each type, and the amounts that an invoice and an offer state.
pub record Parsers : Type 0 where
  pub invoice : String → Option Bolt11Invoice
  pub amount_milli_satoshis : Bolt11Invoice → Option ℕ
  pub offer : String → Option Offer
  pub amount : Offer → Option Amount
  pub ln_url : String → Option LnUrl
  pub lightning_address : String → Option LightningAddress
  pub address : String → Option String

-- `str::strip_prefix`
abbrev pub strip_prefix : String → String → Option String
strip_prefix request prefix =
    if starts_with request prefix then some (slice request (len prefix) (len request)) else none

-- The first of the prefixes that the text has is removed.
abbrev pub strip_any : List String → String → Option String
strip_any [] request = none
strip_any (prefix ∷ prefixes) request = elim (strip_prefix request prefix) [
  | none ↦ strip_any prefixes request
  | some stripped ↦ some stripped
]

-- The calls of a parser by itself: while a prefix can be removed, the rest is parsed; then the
-- text is read. `none` is a lack of fuel.
unfoldable pub parse_from : {A : Type 0} → List String → (String → A) → ℕ → String → Option A
parse_from prefixes read zero request = none
parse_from prefixes read (suc fuel) request = elim (strip_any prefixes request) [
  | none ↦ some (read request)
  | some stripped ↦ parse_from prefixes read fuel stripped
]

-- `if let Ok(a) = a { if let Some(b) = f(a) { return Some(b); } }`, and what follows.
abbrev pub or_next : {A B : Type 0} → Option A → (A → Option B) → Option B → Option B
or_next none f next = next
or_next (some a) f next = elim (f a) [ none ↦ next | some b ↦ some b ]

abbrev only_bitcoin : Offer → Option Amount → Option PaymentRequestWithAmount
only_bitcoin offer (some (Amount.bitcoin amount_msats)) =
    some (PaymentRequestWithAmount.bolt12 (record { offer = offer; amount_msat = amount_msats }))
only_bitcoin offer (some Amount.currency) = none
only_bitcoin offer none = none

abbrev if_none : {A B : Type 0} → B → Option A → Option B
if_none b none = some b
if_none b (some a) = none

abbrev with_invoice : Bolt11Invoice → Option ℕ → Option PaymentRequestWithAmount
with_invoice invoice none = none
with_invoice invoice (some amount_msat) = some (invoice_request amount_msat none invoice)

module _ (p : Parsers) where
  abbrev pub read_with_amount : String → Option PaymentRequestWithAmount
  read_with_amount request =
      or_next (p.invoice request) (λ i. with_invoice i (p.amount_milli_satoshis i))
        (or_next (p.offer request) (λ o. only_bitcoin o (p.amount o)) none)

  abbrev pub read_without_amount : String → Option PaymentRequestWithoutAmount
  read_without_amount request =
      or_next (p.invoice request)
        (λ i. if_none (PaymentRequestWithoutAmount.bolt11 i) (p.amount_milli_satoshis i))
        (or_next (p.offer request)
          (λ o. if_none (PaymentRequestWithoutAmount.bolt12 o) (p.amount o))
          (or_next (p.ln_url request) (λ l. some (PaymentRequestWithoutAmount.ln_url l))
            (or_next (p.lightning_address request)
              (λ a. some (PaymentRequestWithoutAmount.lightning_address a))
              (or_next (p.address request) (λ a. some (PaymentRequestWithoutAmount.onchain a))
                none))))

  unfoldable pub parse_with_amount : String → Option (Option PaymentRequestWithAmount)
  parse_with_amount request =
      parse_from ("lightning:" ∷ []) read_with_amount (suc (len request)) request

  unfoldable pub parse_without_amount : String → Option (Option PaymentRequestWithoutAmount)
  parse_without_amount request =
      parse_from ("lightning:" ∷ "lnurl:" ∷ "bitcoin:" ∷ []) read_without_amount (suc (len request))
        request

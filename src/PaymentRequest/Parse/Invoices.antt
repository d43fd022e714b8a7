-- ===== src/PaymentRequest/Parse/Invoices.antt =====
-- An invoice is read by exactly one of the two parsers.
use mathlib.Core.Path.{◌∙◌}
use Prim.Native.String.{len}
use puncture.Common.{ℕ, zero, suc, String, ◌≡◌, refl, none, some, List, [], ◌∷◌, arith}
use puncture.Common.Text.{◌<>◌}
use puncture.ClientCore.{Bolt11Invoice}
use puncture.PaymentRequest.{PaymentRequestWithoutAmount, invoice_request}
use puncture.PaymentRequest.Parse.{
  Parsers, strip_any, parse_from, read_with_amount, read_without_amount, parse_with_amount,
  parse_without_amount,
}
use puncture.PaymentRequest.Parse.Returns.{
  AllLong, strip_prefix-append, parse_from-stripped, parse_from-read,
}

-- A text after so many times the prefix of a link.
abbrev pub linked : ℕ → String → String
linked zero text = text
linked (suc n) text = "lightning:" <> linked n text

module _ {A : Type 0} (others : List String) (long : AllLong ("lightning:" ∷ others))
    (read : String → A) (text : String) (bare : strip_any ("lightning:" ∷ others) text ≡ none) where
  parse_from-linked :
      (n : ℕ)
      → parse_from ("lightning:" ∷ others) read (suc (len (linked n text))) (linked n text)
        ≡ some (read text)
  parse_from-linked zero = parse_from-read ("lightning:" ∷ others) long read text bare
  parse_from-linked (suc n) =
      let stripped : strip_any ("lightning:" ∷ others) (linked (suc n) text)
          ≡ some (linked n text) =
        rw (strip_any, strip_prefix-append "lightning:" (linked n text)) refl in
      parse_from-stripped ("lightning:" ∷ others) long read (linked (suc n) text) (linked n text)
        stripped
      ∙ parse_from-linked n

-- No parser but that of invoices accepts the text.
pub record IsOnlyInvoice (p : Parsers) (text : String) (invoice : Bolt11Invoice) : Type 0 where
  pub is_invoice : p.invoice text ≡ some invoice
  pub no_offer : p.offer text ≡ none
  pub no_ln_url : p.ln_url text ≡ none
  pub no_lightning_address : p.lightning_address text ≡ none
  pub no_address : p.address text ≡ none

-- The text of an invoice, which no other parser accepts and which has none of the prefixes of a
-- link, after any number of prefixes `lightning:`: an invoice that states an amount is read by
-- `parse_with_amount`, with this amount, and by `parse_without_amount` as nothing; one that states
-- none is read by `parse_without_amount`, and by `parse_with_amount` as nothing.
pub invoice_parsed_once :
    (p : Parsers) (text : String) (invoice : Bolt11Invoice) (n : ℕ)
    → IsOnlyInvoice p text invoice
    → strip_any ("lightning:" ∷ "lnurl:" ∷ "bitcoin:" ∷ []) text ≡ none
    → (parse_with_amount p (linked n text)
        ≡ some (elim (p.amount_milli_satoshis invoice) [
          | none ↦ none
          | some amount ↦ some (invoice_request amount none invoice)
        ]))
      × (parse_without_amount p (linked n text)
          ≡ some (elim (p.amount_milli_satoshis invoice) [
            | none ↦ some (PaymentRequestWithoutAmount.bolt11 invoice)
            | some amount ↦ none
          ]))
unfolding parse_with_amount parse_without_amount
invoice_parsed_once p text invoice n only bare =
    let bare_with : strip_any ("lightning:" ∷ []) text ≡ none = ground arith in
    (
      parse_from-linked [] (omega arith, tt) (read_with_amount p) text bare_with n
          ∙ ground (arith, only.is_invoice, only.no_offer),
      parse_from-linked ("lnurl:" ∷ "bitcoin:" ∷ []) (omega arith, (omega arith, (omega arith, tt)))
            (read_without_amount p) text bare n
          ∙ ground (arith, only.is_invoice, only.no_offer),
    )

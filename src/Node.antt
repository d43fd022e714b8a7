-- ===== src/Node.antt =====
-- The embedded lightning node and the parsers of third-party libraries, as the daemon sees them:
-- what each call answers is a parameter of the model, and the calls that act are kept in order.
use puncture.Common.{ℕ, String, ◌≡◌, refl, ◌⊎◌, inl, inr}
use puncture.Common.Outcome.{Outcome, ok, err}
use puncture.ClientCore.{Bolt11Invoice, Offer}

-- The result of a fallible call, with the text of its error.
pub data Answer (A : Type 0) : Type 0 where
  granted : A → Answer A
  refused : String → Answer A

-- `map_err(|e| e.to_string())?`
abbrev pub error_text : {A : Type 0} → Answer A → Outcome A
error_text (Answer.granted a) = ok a
error_text (Answer.refused e) = err e

-- `map_err(|_| message)?`
abbrev pub error_as : {A : Type 0} → String → Answer A → Outcome A
error_as message (Answer.granted a) = ok a
error_as message (Answer.refused e) = err message

-- The calls that change the state of the node.
pub data NodeCall : Type 0 where
  bolt11_receive : ℕ → String → ℕ → NodeCall
  bolt12_receive : NodeCall
  bolt11_send : Bolt11Invoice → ℕ → NodeCall
  bolt12_send : Offer → ℕ → NodeCall
  onchain_send : String → ℕ → NodeCall

-- What the calls of one request are answered.
pub record Node : Type 0 where
  -- `Description::new`
  pub description : String → Answer String
  pub bolt11_receive : ℕ → String → ℕ → Answer Bolt11Invoice
  pub bolt12_receive : Answer Offer
  -- the payment id in hex
  pub bolt11_send : Bolt11Invoice → ℕ → Answer String
  pub bolt12_send : Offer → ℕ → Answer String
  -- `Offer::from_str`
  pub parse_offer : String → Answer Offer
  -- `require_network` with the node's network
  pub require_network : String → Answer String
  -- the transaction id in hex
  pub onchain_send : String → ℕ → Answer String

pub Answer-cases :
    {A : Type 0} (a : Answer A)
    → ((x : A) × (a ≡ Answer.granted x)) ⊎ ((e : String) × (a ≡ Answer.refused e))
Answer-cases (Answer.granted x) = inl (x, refl)
Answer-cases (Answer.refused e) = inr (e, refl)

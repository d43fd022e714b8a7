-- ===== src/Rpc/Effects.antt =====
-- What a successful payment has done, exactly.
pub mod Accepts
pub mod Recovered
use puncture.Common.{
  ℕ, ◌+◌, ◌≤◌, String, ◌≡◌, ◌≢◌, refl, true, false, Option, some, none, List, [], ◌∷◌, ◌++◌, arith,
  inl, inr, Option-cases, ◌==◌, eq_iff, if◌then◌else◌,
}
use puncture.Common.Outcome.{Outcome, ok, panic, is_ok, ok-cases}
use puncture.Models.{InvoiceRecord, SendRecord, ReceiveRecord, Tables}
use puncture.ClientCore.{Bolt11SendRequest, Bolt12SendRequest, Offer}
use puncture.Ledger
use puncture.Ledger.Balance.{received, spent, received-append, spent-append}
use puncture.ClientDb.Inserts.{has_id}
use puncture.ClientDb.{
  transfer_send, transfer_receive, create_internal_transfer, send_row, create_send_payment,
}
use puncture.Node.{NodeCall, Answer, Answer-cases}
use puncture.Handler.{Env, World}
use puncture.Rpc.Checks.{check_send}
use puncture.Rpc.Actions.{push_events}
use puncture.Rpc.Send.{pay_user, bolt11_send_to, bolt11_send, bolt12_send_to, bolt12_send}

module _ (env : Env) (u : String) (w : World) where
  module _ (request : Bolt11SendRequest) where
    -- A successful payment of an invoice that this daemon has issued is between two different
    -- users. It takes the amount and 1000 msat from the sender, gives the owner of the invoice the
    -- amount, changes the ledger of nobody else, and calls the node not at all.
    pub bolt11_send_internal :
        (invoice : InvoiceRecord)
        → Ledger.get_invoice w.db request.invoice.payment_hash ≡ some invoice
        → (bolt11_send env u request w).0 ≡ ok tt
        → let w' = (bolt11_send env u request w).1 in
          (invoice.user_pk ≢ u)
          × ((v : String)
              → (spent v w'.db.sends
                  ≡ spent v w.db.sends + (if u == v then request.amount_msat + 1000 else 0))
                × (received v w'.db.receives
                    ≡ received v w.db.receives
                      + (if invoice.user_pk == v then request.amount_msat else 0)))
          × (w'.calls ≡ w.calls)
    unfolding bolt11_send bolt11_send_to pay_user push_events create_internal_transfer
    bolt11_send_internal invoice found done = (
      λ same. ground (arith, eq_iff invoice.user_pk u),
      λ v. ground (
        arith,
        spent-append v
            (transfer_send env.now env.transfer_id u request.amount_msat 1000 invoice.pr
              invoice.description)
            w.db.sends,
        received-append v
            (transfer_receive env.now env.transfer_id invoice.user_pk request.amount_msat invoice.pr
              invoice.description)
            w.db.receives,
      ),
      ground arith,
    )

    -- A successful payment of an invoice that this daemon has not issued has made the one call to
    -- the node, which accepted it with an id that no send had, and has stored a pending send under
    -- that id with the fee that `check_send` found. The receipts are as before.
    pub bolt11_send_external :
        Ledger.get_invoice w.db request.invoice.payment_hash ≡ none
        → (bolt11_send env u request w).0 ≡ ok tt
        → let w' = (bolt11_send env u request w).1 in
          (id : String) × (fee : ℕ) × (env.node.bolt11_send request.invoice request.amount_msat
            ≡ Answer.granted id)
          × (check_send env.args u request.amount_msat w.db ≡ ok fee)
          × (has_id id w.db.sends ≡ false)
          × (w'.calls ≡ w.calls ++ NodeCall.bolt11_send request.invoice request.amount_msat ∷ [])
          × (w'.db.sends
              ≡ w.db.sends
                ++ send_row env.now id u request.amount_msat fee request.invoice.description
                    request.invoice.text "pending" request.ln_address
                  ∷ [])
          × (w'.db.receives ≡ w.db.receives)
    unfolding bolt11_send bolt11_send_to push_events create_send_payment
    bolt11_send_external other done =
        elim (Answer-cases (env.node.bolt11_send request.invoice request.amount_msat)) [
          | inr (m, refused) ↦ absurd (ground arith)
          | inl (id, granted) ↦ elim (ok-cases (check_send env.args u request.amount_msat w.db)) [
            | inl (fee, passed) ↦
                (id, fee, granted, passed, ground arith, ground arith, ground arith, ground arith)
            | inr failed ↦ absurd (ground arith)
          ]
        ]

  -- A payment that passes `check_send`, of an offer that is well formed, not of this daemon and
  -- without a description, ends in a panic when the node has accepted it: the call is made, and
  -- the tables, so the balances too, stay as they were.
  pub bolt12_send_unrecorded :
      (request : Bolt12SendRequest) (offer : Offer) (id : String) (fee : ℕ)
      → check_send env.args u request.amount_msat w.db ≡ ok fee
      → env.node.parse_offer request.offer ≡ Answer.granted offer
      → Ledger.get_offer w.db offer.id ≡ none
      → offer.description ≡ none
      → env.node.bolt12_send offer request.amount_msat ≡ Answer.granted id
      → bolt12_send env u request w ≡ (
        panic "called `Option::unwrap()` on a `None` value",
        record w { calls = w.calls ++ NodeCall.bolt12_send offer request.amount_msat ∷ [] },
      )
  unfolding bolt12_send bolt12_send_to
  bolt12_send_unrecorded request offer id fee passed parsed other bare granted = ground arith

  -- A payment that passes `check_send`, of an invoice that is not of this daemon, and that the node
  -- accepts under an id that a send has already, ends in a panic: the call is made, and the tables
  -- stay as they were.
  pub bolt11_send_duplicate :
      (request : Bolt11SendRequest) (id : String) (fee : ℕ)
      → check_send env.args u request.amount_msat w.db ≡ ok fee
      → Ledger.get_invoice w.db request.invoice.payment_hash ≡ none
      → env.node.bolt11_send request.invoice request.amount_msat ≡ Answer.granted id
      → has_id id w.db.sends ≡ true
      → bolt11_send env u request w ≡ (
        panic "Failed to insert send payment",
        record w {
          calls = w.calls ++ NodeCall.bolt11_send request.invoice request.amount_msat ∷ [];
        },
      )
  unfolding bolt11_send bolt11_send_to create_send_payment
  bolt11_send_duplicate request id fee passed other granted taken = ground arith

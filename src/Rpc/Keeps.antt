-- ===== src/Rpc/Keeps.antt =====
-- What a payment of an invoice or an offer can do to the tables.
pub mod Onchain
use puncture.Common.{ℕ, ◌+◌, ◌≤◌, arith, String, ◌≡◌, Option, some, none, inl, inr, Option-cases}
use puncture.Common.Outcome.{ok}
use puncture.Models.{Tables, InvoiceRecord, OfferRecord}
use puncture.ClientCore.{Offer, Bolt11SendRequest, Bolt12SendRequest}
use puncture.Ledger
use puncture.Ledger.Balance.{received, spent, Fits}
use puncture.ClientDb.{create_internal_transfer, create_send_payment}
use puncture.Node.{Answer, Answer-cases, error_as}
use puncture.Handler.{Env, World, continue}
use puncture.Handler.Keeps.{tables_after, Either, Either-keeps, continue_keeps}
use puncture.Rpc.Checks.{check_send}
use puncture.Rpc.Actions.{push_events}
use puncture.Rpc.Send.{
  pay_user, internal_fee_msat, bolt11_send_to, bolt11_send, bolt12_send_to, bolt12_send,
}
use puncture.Rpc.Solvency.{
  IsSane, IsSound, check_send-covers, create_internal_transfer-IsSound, create_send_payment-IsSound,
}

pay_user-tables :
    (env : Env) (u payee : String) (amount fee : ℕ) (pr description : String) (w : World)
    → (pay_user env u payee amount fee pr description w).1.db
      ≡ tables_after
          (create_internal_transfer env.now env.transfer_id u payee amount fee pr description w.db)
          w.db
unfolding pay_user push_events
pay_user-tables env u payee amount fee pr description w = ground arith

-- Paying a request of this daemon transfers, or leaves the tables alone.
module _ (env : Env) (u : String) (fee : ℕ) (w : World) where
  bolt11_send_to-some :
      (request : Bolt11SendRequest) (invoice : InvoiceRecord)
      → Either (bolt11_send_to env u request fee (some invoice) w).1.db w.db (
          tables_after
            (create_internal_transfer env.now env.transfer_id u invoice.user_pk request.amount_msat
              internal_fee_msat invoice.pr invoice.description w.db)
            w.db)
  unfolding bolt11_send_to
  bolt11_send_to-some request invoice = ground (
    arith,
    pay_user-tables env u invoice.user_pk request.amount_msat internal_fee_msat invoice.pr
        invoice.description w,
  )

  bolt11_send_to-none :
      (request : Bolt11SendRequest) (id : String)
      → env.node.bolt11_send request.invoice request.amount_msat ≡ Answer.granted id
      → (bolt11_send_to env u request fee none w).1.db
        ≡ tables_after
            (create_send_payment env.now id u request.amount_msat fee request.invoice.description
              request.invoice.text "pending" request.ln_address w.db)
            w.db
  unfolding bolt11_send_to push_events
  bolt11_send_to-none request id e = ground arith

  bolt11_send_to-refused :
      (request : Bolt11SendRequest) (m : String)
      → env.node.bolt11_send request.invoice request.amount_msat ≡ Answer.refused m
      → (bolt11_send_to env u request fee none w).1.db ≡ w.db
  unfolding bolt11_send_to
  bolt11_send_to-refused request m e = ground arith

  bolt12_send_to-some :
      (request : Bolt12SendRequest) (offer : Offer) (row : OfferRecord)
      → Either (bolt12_send_to env u request fee offer (some row) w).1.db w.db (
          tables_after
            (create_internal_transfer env.now env.transfer_id u row.user_pk request.amount_msat
              internal_fee_msat row.pr row.description w.db)
            w.db)
  unfolding bolt12_send_to
  bolt12_send_to-some request offer row = ground (
    arith,
    pay_user-tables env u row.user_pk request.amount_msat internal_fee_msat row.pr row.description
        w,
  )

  bolt12_send_to-none :
      (request : Bolt12SendRequest) (offer : Offer) (id description : String)
      → env.node.bolt12_send offer request.amount_msat ≡ Answer.granted id
      → offer.description ≡ some description
      → (bolt12_send_to env u request fee offer none w).1.db
        ≡ tables_after
            (create_send_payment env.now id u request.amount_msat fee description offer.text
              "pending" none w.db)
            w.db
  unfolding bolt12_send_to push_events
  bolt12_send_to-none request offer id description e d = ground arith

  -- Without a description the handler panics before it stores the payment.
  bolt12_send_to-stopped :
      (request : Bolt12SendRequest) (offer : Offer)
      → offer.description ≡ none
      → (bolt12_send_to env u request fee offer none w).1.db ≡ w.db
  unfolding bolt12_send_to
  bolt12_send_to-stopped request offer d = ground arith

  bolt12_send_to-refused :
      (request : Bolt12SendRequest) (offer : Offer) (m : String)
      → env.node.bolt12_send offer request.amount_msat ≡ Answer.refused m
      → (bolt12_send_to env u request fee offer none w).1.db ≡ w.db
  unfolding bolt12_send_to
  bolt12_send_to-refused request offer m e = ground arith

-- What holds of the tables holds after a payment, if it holds after each way to book one.
module _ (P : Tables → Type 0) (env : Env) (u : String) (w : World) (before : P w.db) where
  -- A transfer within the daemon, and a payment that the node has accepted, of one amount.
  abbrev pub KeptByTransfer : ℕ → Type 0
  KeptByTransfer amount =
      (to pr description : String)
      → P (
          tables_after
            (create_internal_transfer env.now env.transfer_id u to amount internal_fee_msat pr
              description w.db)
            w.db)

  abbrev pub KeptBySend : ℕ → ℕ → Type 0
  KeptBySend amount fee =
      (id description pr : String) (ln_address : Option String)
      → P (
          tables_after
            (create_send_payment env.now id u amount fee description pr "pending" ln_address w.db)
            w.db)

  module _ (fee : ℕ) where
    bolt11_send_to-keeps :
        (request : Bolt11SendRequest) (found : Option InvoiceRecord)
        → KeptByTransfer request.amount_msat
        → KeptBySend request.amount_msat fee
        → P (bolt11_send_to env u request fee found w).1.db
    bolt11_send_to-keeps request (some invoice) transfer send =
        Either-keeps P (bolt11_send_to-some env u fee w request invoice) before
          (transfer invoice.user_pk invoice.pr invoice.description)
    bolt11_send_to-keeps request none transfer send =
        elim (Answer-cases (env.node.bolt11_send request.invoice request.amount_msat)) [
          | inl (id, e) ↦
              rw (bolt11_send_to-none env u fee w request id e)
                (send id request.invoice.description request.invoice.text request.ln_address)
          | inr (m, e) ↦ rw (bolt11_send_to-refused env u fee w request m e) before
        ]

    bolt12_send_to-keeps :
        (request : Bolt12SendRequest) (offer : Offer) (found : Option OfferRecord)
        → KeptByTransfer request.amount_msat
        → KeptBySend request.amount_msat fee
        → P (bolt12_send_to env u request fee offer found w).1.db
    bolt12_send_to-keeps request offer (some row) transfer send =
        Either-keeps P (bolt12_send_to-some env u fee w request offer row) before
          (transfer row.user_pk row.pr row.description)
    bolt12_send_to-keeps request offer none transfer send =
        elim (Answer-cases (env.node.bolt12_send offer request.amount_msat)) [
          | inl (id, e) ↦ elim (Option-cases offer.description) [
            | inl d ↦ rw (bolt12_send_to-stopped env u fee w request offer d) before
            | inr (description, d) ↦
                rw (bolt12_send_to-none env u fee w request offer id description e d)
                  (send id description offer.text none)
          ]
          | inr (m, e) ↦ rw (bolt12_send_to-refused env u fee w request offer m e) before
        ]

  pub bolt11_send-keeps :
      (request : Bolt11SendRequest)
      → ((fee : ℕ)
          → check_send env.args u request.amount_msat w.db ≡ ok fee
          → KeptByTransfer request.amount_msat × KeptBySend request.amount_msat fee)
      → P (bolt11_send env u request w).1.db
  unfolding bolt11_send
  bolt11_send-keeps request kept =
      continue_keeps P (check_send env.args u request.amount_msat w.db)
        (λ fee v.
          bolt11_send_to env u request fee (Ledger.get_invoice v.db request.invoice.payment_hash) v)
        w before λ fee e. let k = kept fee e in bolt11_send_to-keeps fee request _ k.0 k.1

  pub bolt12_send-keeps :
      (request : Bolt12SendRequest)
      → ((fee : ℕ)
          → check_send env.args u request.amount_msat w.db ≡ ok fee
          → KeptByTransfer request.amount_msat × KeptBySend request.amount_msat fee)
      → P (bolt12_send env u request w).1.db
  unfolding bolt12_send
  bolt12_send-keeps request kept =
      continue_keeps P (check_send env.args u request.amount_msat w.db)
        (λ fee v.
          continue (error_as "Invalid offer" (env.node.parse_offer request.offer))
            (λ offer v'.
              bolt12_send_to env u request fee offer (Ledger.get_offer v'.db offer.id) v')
            v)
        w before
        λ fee e.
          let k = kept fee e in
          continue_keeps P (error_as "Invalid offer" (env.node.parse_offer request.offer))
            (λ offer v. bolt12_send_to env u request fee offer (Ledger.get_offer v.db offer.id) v) w
            before λ offer _. bolt12_send_to-keeps fee request offer _ k.0 k.1

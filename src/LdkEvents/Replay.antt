-- ===== src/LdkEvents/Replay.antt =====
-- The node may report a received payment again: it is credited once.
use puncture.Common.{
  ℕ, String, ◌≡◌, refl, Option, some, none, List, [], ◌∷◌, arith, any-append, ◌==◌, eq_refl, inl,
  inr, Option-cases,
}
use puncture.Models.{ReceiveRecord, insert_or_ignore}
use puncture.Convert.{invoice_receipt, offer_receipt}
use puncture.Ledger.{create_receive_payment, get_invoice, get_offer}
use puncture.Handler.{World}
use puncture.LdkEvents.{Event, PaymentKind, receipt_of, store_receipt, process_ldk_event}

-- A second row with the same id is ignored.
insert_or_ignore_twice :
    (a b : ReceiveRecord) (rows : List ReceiveRecord)
    → b.id ≡ a.id
    → insert_or_ignore (λ r. r.id) b (insert_or_ignore (λ r. r.id) a rows)
      ≡ insert_or_ignore (λ r. r.id) a rows
insert_or_ignore_twice a b rows same =
    rw same
      (ground (arith, any-append (λ (r : ReceiveRecord). r.id == a.id) rows (a ∷ []), eq_refl a.id))

module _ (now now' : ℕ) (payment : String → Option PaymentKind) (amount : ℕ) (w : World) where
  abbrev Again : Option String → Type 0
  Again id =
      let event = Event.payment_received id amount in
      let w' = (process_ldk_event now payment event w).1 in
      (process_ldk_event now' payment event w').1.db ≡ w'.db

  invoice-Again : (id hash : String) → payment id ≡ some (PaymentKind.bolt11 hash) → Again (some id)
  unfolding process_ldk_event receipt_of store_receipt create_receive_payment invoice_receipt
      get_invoice
  invoice-Again id hash e = elim (Option-cases (get_invoice w.db hash)) [
    | inl missing ↦ ground arith
    | inr (i, known) ↦ ground (
      arith,
      insert_or_ignore_twice (invoice_receipt now i id amount) (invoice_receipt now' i id amount)
          w.db.receives refl,
    )
  ]

  offer-Again :
      (id offer : String) → payment id ≡ some (PaymentKind.bolt12_offer offer) → Again (some id)
  unfolding process_ldk_event receipt_of store_receipt create_receive_payment offer_receipt
      get_offer
  offer-Again id offer e = elim (Option-cases (get_offer w.db offer)) [
    | inl missing ↦ ground arith
    | inr (o, known) ↦ ground (
      arith,
      insert_or_ignore_twice (offer_receipt now o id amount) (offer_receipt now' o id amount)
          w.db.receives refl,
    )
  ]

  known-Again : (id : String) (kind : PaymentKind) → payment id ≡ some kind → Again (some id)
  known-Again id (PaymentKind.bolt11 hash) e = invoice-Again id hash e
  known-Again id (PaymentKind.bolt12_offer offer) e = offer-Again id offer e
  known-Again id PaymentKind.unexpected e = unfold process_ldk_event receipt_of in ground arith

-- Processing the report of a received payment a second time, at any time, leaves the tables as the
-- first time left them.
pub payment_received_twice :
    (now now' : ℕ) (payment : String → Option PaymentKind) (id : Option String) (amount : ℕ)
    (w : World)
    → let event = Event.payment_received id amount in
      let w' = (process_ldk_event now payment event w).1 in
      (process_ldk_event now' payment event w').1.db ≡ w'.db
payment_received_twice now now' payment none amount w = unfold process_ldk_event in refl
payment_received_twice now now' payment (some id) amount w = elim (Option-cases (payment id)) [
  | inl e ↦ unfold process_ldk_event in ground arith
  | inr (kind, e) ↦ known-Again now now' payment amount w id kind e
]

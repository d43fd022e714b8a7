-- ===== src/LdkEvents/Credit.antt =====
-- An invoice that a user has asked for is credited to that user when the node reports its payment.
use puncture.Common.{
  ◌*◌, ℕ, ◌+◌, String, Bool, false, ◌≡◌, refl, Option, none, some, List, [], ◌∷◌, ◌++◌, arith, any,
  find, ◌==◌, eq_refl, if◌then◌else◌,
}
use puncture.Common.Outcome.{ok}
use puncture.Models.{InvoiceRecord, ReceiveRecord}
use puncture.ClientCore.{Bolt11Invoice, Bolt11ReceiveRequest}
use puncture.Convert.{invoice_receipt}
use puncture.Ledger.{get_invoice, create_receive_payment}
use puncture.Ledger.Balance.{received, spent, received-append}
use puncture.ClientDb.{create_invoice}
use puncture.Handler.{Env, World}
use puncture.Rpc.Receive.{bolt11_receive}
use puncture.Rpc.Solvency.Others.{bolt11_receive-SameLedger}
use puncture.LdkEvents.{Event, PaymentKind, receipt_of, store_receipt, process_ldk_event}

-- A row that is appended under a new key is found under it.
find-append {ℓ} :
    {A : Type ℓ} (p : A → Bool) (x : A) (xs : List A)
    → any p xs ≡ false
    → find p (xs ++ x ∷ []) ≡ (if p x then some x else none)
find-append p x [] h = refl
find-append p x (y ∷ xs) h = ground (arith, find-append p x xs)

module _ (env : Env) (u : String) (request : Bolt11ReceiveRequest) (w : World)
    (invoice : Bolt11Invoice) (done : (bolt11_receive env u request w).0 ≡ ok invoice) where
  abbrev row : InvoiceRecord
  row = record {
    id = invoice.payment_hash;
    user_pk = u;
    amount_msat = some request.amount_msat;
    description = request.description;
    pr = invoice.text;
    expires_at = env.now + env.args.invoice_expiry_secs * 1000;
    created_at = env.now;
  }

  abbrev asked : World
  asked = (bolt11_receive env u request w).1

  asked-row : get_invoice asked.db invoice.payment_hash ≡ some row
  unfolding bolt11_receive create_invoice get_invoice
  asked-row = ground (
    arith,
    find-append (λ (r : InvoiceRecord). r.id == invoice.payment_hash) row w.db.invoices,
    eq_refl invoice.payment_hash,
  )

  -- Take an invoice that a user was given. When the node reports at any time a payment of it, of
  -- any amount and under an id that no receipt has, the report is handled without an error: it
  -- credits the user with the amount and nobody else, and charges nobody.
  pub bolt11_receive_credits :
      (now : ℕ) (payment : String → Option PaymentKind) (id : String) (amount : ℕ)
      → payment id ≡ some (PaymentKind.bolt11 invoice.payment_hash)
      → any (λ (r : ReceiveRecord). r.id == id) w.db.receives ≡ false
      → let ended = process_ldk_event now payment (Event.payment_received (some id) amount) asked in
        (ended.0 ≡ ok tt)
        × ((v : String)
            → (received v ended.1.db.receives
                ≡ received v w.db.receives + (if u == v then amount else 0))
              × (spent v ended.1.db.sends ≡ spent v w.db.sends))
  unfolding process_ldk_event receipt_of store_receipt create_receive_payment invoice_receipt
  bolt11_receive_credits now payment id amount kind fresh = (
    ground (arith, asked-row),
    λ v. ground (
      arith,
      asked-row,
      bolt11_receive-SameLedger env u w request,
      received-append v (invoice_receipt now row id amount) w.db.receives,
    ),
  )

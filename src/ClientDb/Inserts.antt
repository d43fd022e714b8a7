-- ===== src/ClientDb/Inserts.antt =====
-- What the inserts of `ClientDb` do to the ledger.
use puncture.Common.{
  ℕ, ◌+◌, String, Bool, ◌≡◌, refl, false, Option, List, [], ◌∷◌, ◌++◌, arith, any, any-append, ◌==◌,
  eq_iff, if◌then◌else◌,
}
use puncture.Common.Outcome.{ok}
use puncture.Models.{SendRecord, ReceiveRecord, Tables}
use puncture.Ledger.Balance.{received, spent, received-append, spent-append}
use puncture.Ledger.Status.{DistinctIds, charge}
use puncture.ClientDb.{
  transfer_send, transfer_receive, create_internal_transfer, send_row, create_send_payment,
}

abbrev pub has_id : String → List SendRecord → Bool
has_id i rows = any (λ r. r.id == i) rows

DistinctIds-append :
    (s : SendRecord) (rows : List SendRecord)
    → has_id s.id rows ≡ false
    → DistinctIds rows
    → DistinctIds (rows ++ s ∷ [])
DistinctIds-append s [] h d = (refl, tt)
DistinctIds-append s (x ∷ rows) h d = ground (
  arith,
  any-append (λ (r : SendRecord). r.id == x.id) rows (s ∷ []),
  DistinctIds-append s rows,
  eq_iff x.id s.id,
  eq_iff s.id x.id,
)

module _ (now : ℕ) (id from : String) (amount fee : ℕ) where
  module _ (to pr description : String) (db : Tables) {rows : SendRecord × ReceiveRecord}
      {db' : Tables}
      (done : create_internal_transfer now id from to amount fee pr description db
        ≡ ok (rows, db')) where
    -- A transfer charges the sender amount and fee, credits the receiver with the amount, and
    -- moves nothing else.
    pub create_internal_transfer_lem :
        (u : String)
        → (spent u db'.sends ≡ spent u db.sends + (if from == u then amount + fee else 0))
          × (received u db'.receives ≡ received u db.receives + (if to == u then amount else 0))
    unfolding create_internal_transfer
    create_internal_transfer_lem u = ground (
      arith,
      spent-append u (transfer_send now id from amount fee pr description) db.sends,
      received-append u (transfer_receive now id to amount pr description) db.receives,
    )

    pub create_internal_transfer-DistinctIds : DistinctIds db.sends → DistinctIds db'.sends
    unfolding create_internal_transfer
    create_internal_transfer-DistinctIds d =
        ground
          (arith, DistinctIds-append (transfer_send now id from amount fee pr description) db.sends)

  module _ (description pr status : String) (ln_address : Option String) (db : Tables)
      {row : SendRecord} {db' : Tables}
      (done : create_send_payment now id from amount fee description pr status ln_address db
        ≡ ok (row, db')) where
    -- A payment by the node charges the sender amount and fee, unless it starts as failed.
    pub create_send_payment_lem :
        (u : String)
        → (spent u db'.sends
            ≡ spent u db.sends
              + charge u (send_row now id from amount fee description pr status ln_address))
          × (db'.receives ≡ db.receives)
    unfolding create_send_payment
    create_send_payment_lem u = ground (
      arith,
      spent-append u (send_row now id from amount fee description pr status ln_address) db.sends,
    )

    pub create_send_payment-DistinctIds : DistinctIds db.sends → DistinctIds db'.sends
    unfolding create_send_payment
    create_send_payment-DistinctIds d = ground (
      arith,
      DistinctIds-append (send_row now id from amount fee description pr status ln_address)
          db.sends,
    )

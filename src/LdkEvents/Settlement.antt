-- ===== src/LdkEvents/Settlement.antt =====
-- What the node's reports do to the balance of the sender of a payment.
use puncture.Common.{
  ℕ, ◌+◌, ◌-◌, ◌^◌, ◌≤◌, ◌<◌, String, ◌≡◌, ◌≢◌, false, Option, some, arith, find, ◌==◌, eq_refl,
  eq_iff,
}
use puncture.Models.{SendRecord}
use puncture.Handler.{World}
use puncture.Ledger.{user_balance, update_send_status}
use puncture.Ledger.Balance.{received, spent, user_balance_lem, user_balance-overdrawn}
use puncture.Ledger.Status.{DistinctIds, update_send_status_lem}
use puncture.LdkEvents.{Event, PaymentKind, process_ldk_event}
use puncture.LdkEvents.Solvency.{failed_tables, successful_tables}

module _ (now : ℕ) (payment : String → Option PaymentKind) (id : String) (s : SendRecord)
    (w : World) (distinct : DistinctIds w.db.sends)
    (found : find (λ (r : SendRecord). r.id == id) w.db.sends ≡ some s)
    (live : (s.status == "failed") ≡ false) where
  -- Where the ids of sends are distinct, the send s with the id has not failed, and the sender's
  -- receipts cover what the sender has spent and stay below 2 ^ 63: when the node reports the
  -- failure of the payment, the sender's balance grows by the amount and the fee that was set
  -- aside, and no other user's spending or receipts change.
  pub payment_failed_refunds :
      received s.user_pk w.db.receives < 2 ^ 63
      → spent s.user_pk w.db.sends ≤ received s.user_pk w.db.receives
      → let db' = (process_ldk_event now payment (Event.payment_failed (some id)) w).1.db in
        (user_balance db' s.user_pk ≡ user_balance w.db s.user_pk + s.amount_msat + s.fee_msat)
        × ((u : String)
            → u ≢ s.user_pk
            → (spent u db'.sends ≡ spent u w.db.sends)
              × (received u db'.receives ≡ received u w.db.receives))
  payment_failed_refunds fits covered =
      let (row, same, change) = update_send_status_lem id "failed" 0 w.db s distinct found in
      rw (failed_tables now payment w id) (
        rw (user_balance_lem w.db s.user_pk fits covered) (
            ground (
              arith,
              change s.user_pk,
              eq_refl s.user_pk,
              same,
              user_balance_lem (update_send_status w.db id "failed" 0).1 s.user_pk,
            )),
        λ u other. ground (arith, change u, same, eq_iff s.user_pk u),
      )

  -- Where the ids of sends are distinct, the send s with the id has not failed, and the sender's
  -- receipts cover what the sender has spent and stay below 2 ^ 63: when the node reports success
  -- at a fee that is no more than the one set aside, the sender gets back the difference.
  pub payment_successful_charges :
      (fee_paid : ℕ)
      → fee_paid ≤ s.fee_msat
      → received s.user_pk w.db.receives < 2 ^ 63
      → spent s.user_pk w.db.sends ≤ received s.user_pk w.db.receives
      → let db' =
          (process_ldk_event now payment
            (Event.payment_successful (some id) (some fee_paid))
            w).1.db in
        user_balance db' s.user_pk + fee_paid ≡ user_balance w.db s.user_pk + s.fee_msat
  payment_successful_charges fee_paid cheap fits covered =
      let (row, same, change) =
        update_send_status_lem id "successful" fee_paid w.db s distinct found in
      rw (successful_tables now payment w id fee_paid) (
        rw (user_balance_lem w.db s.user_pk fits covered) (
          ground (
            arith,
            change s.user_pk,
            eq_refl s.user_pk,
            same,
            user_balance_lem (update_send_status w.db id "successful" fee_paid).1 s.user_pk,
          )))

  -- Where the ids of sends are distinct, the send s with the id has not failed, the sender's
  -- receipts cover the spending, and both stay below 2 ^ 63, the latter also with the fee paid:
  -- when the node reports success at a fee that is more than the sender's balance and the fee set
  -- aside together, the balance that the daemon then reports is 2 ^ 64 less the missing amount.
  pub payment_successful_overdraws :
      (fee_paid : ℕ)
      → received s.user_pk w.db.receives < 2 ^ 63
      → spent s.user_pk w.db.sends + fee_paid < 2 ^ 63
      → spent s.user_pk w.db.sends ≤ received s.user_pk w.db.receives
      → user_balance w.db s.user_pk + s.fee_msat < fee_paid
      → let db' =
          (process_ldk_event now payment
            (Event.payment_successful (some id) (some fee_paid))
            w).1.db in
        user_balance db' s.user_pk
        ≡ 2 ^ 64 - (fee_paid - (user_balance w.db s.user_pk + s.fee_msat))
  payment_successful_overdraws fee_paid fits small covered dear =
      let (row, same, change) =
        update_send_status_lem id "successful" fee_paid w.db s distinct found in
      rw (successful_tables now payment w id fee_paid) (
        ground (
          arith,
          change s.user_pk,
          eq_refl s.user_pk,
          same,
          user_balance_lem w.db s.user_pk,
          user_balance-overdrawn (update_send_status w.db id "successful" fee_paid).1 s.user_pk,
        ))

-- ===== src/Bank/Events.antt =====
-- Each report of the node brings money in, or moves nothing.
use puncture.Common.{
  ℕ, ◌-◌, String, refl, Option, some, none, inl, inr, Option-cases, Bool-cases, arith, find, any,
  ◌==◌, eq_refl, leb,
}
use puncture.Common.Outcome.{ok_or}
use mathlib.Core.Path.{subst}
use puncture.Models.{ReceiveRecord, Tables}
use puncture.Ledger.{create_receive_payment, update_send_status}
use puncture.Ledger.Balance.{received-append, cost}
use puncture.Ledger.Status.{resolve, update_send_status_lem, update_send_status-missing}
use puncture.Handler.{World, continue}
use puncture.Handler.Keeps.{Either-keeps, continue_keeps}
use puncture.Rpc.Solvency.{IsSound}
use puncture.LdkEvents.{Event, PaymentKind, receipt_of, store_receipt, process_ldk_event}
use puncture.LdkEvents.Solvency.{store_receipt-Either, failed_tables, successful_tables}
use puncture.Bank.{accounts, claims, Actor, Move}

module _ (db : Tables) (sound : IsSound db) where
  abbrev ByNode : Tables → Type 0
  ByNode db' = Move (claims db) (accounts db) (accounts db') Actor.node

  stays : ByNode db
  stays = Move.stay λ v. refl

  -- A receipt is credited to its user, unless it is stored already.
  create_receive_payment-ByNode : (row : ReceiveRecord) → ByNode (create_receive_payment db row)
  unfolding create_receive_payment
  create_receive_payment-ByNode row =
      elim (Bool-cases (any (λ (r : ReceiveRecord). r.id == row.id) db.receives)) [
        | inl known ↦ Move.stay λ v. ground arith
        | inr fresh ↦
            Move.pay_in row.user_pk row.amount_msat
              λ v. ground (arith, received-append v row db.receives, sound.solvent v)
      ]

  -- A send that becomes cheaper gives its sender the difference, and one that becomes dearer charges
  -- it to him, where he can still pay.
  update_send_status-ByNode :
      (id status : String) (fee : ℕ)
      → IsSound (update_send_status db id status fee).1
      → ByNode (update_send_status db id status fee).1
  update_send_status-ByNode id status fee sound' =
      elim (Option-cases (find (λ r. r.id == id) db.sends)) [
        | inl e ↦ rw (update_send_status-missing id status fee db e) stays
        | inr (s, e) ↦
            let (row, same, change) = update_send_status_lem id status fee db s sound.distinct e in
            elim (Bool-cases (leb (cost (resolve status fee s)) (cost s))) [
              | inl cheaper ↦
                  Move.pay_in s.user_pk (cost s - cost (resolve status fee s))
                    λ v. rw same (ground (arith, change v, sound.solvent v, cheaper))
              | inr dearer ↦
                  Move.charge s.user_pk (cost (resolve status fee s) - cost s)
                    (ground (
                      arith,
                      same,
                      change s.user_pk,
                      sound'.solvent s.user_pk,
                      sound.solvent s.user_pk,
                      eq_refl s.user_pk,
                      dearer,
                    ))
                    λ v.
                      rw same
                        (ground (arith, same, change v, sound.solvent v, sound'.solvent v, dearer))
            ]
      ]

module _ (now : ℕ) (payment : String → Option PaymentKind) (w : World) (sound : IsSound w.db) where
  payment_received-ByNode :
      (id : Option String) (amount : ℕ)
      → ByNode w.db sound (process_ldk_event now payment (Event.payment_received id amount) w).1.db
  unfolding process_ldk_event
  payment_received-ByNode none amount = stays w.db sound
  payment_received-ByNode (some id) amount =
      continue_keeps (ByNode w.db sound) (ok_or (payment id) "Payment not found")
        (λ kind v. continue (receipt_of now kind id amount v.db) (store_receipt amount) v) w
        (stays w.db sound)
        λ kind _.
          continue_keeps (ByNode w.db sound) (receipt_of now kind id amount w.db)
            (store_receipt amount) w (stays w.db sound)
            λ row _.
              Either-keeps (ByNode w.db sound) (store_receipt-Either amount row w)
                (stays w.db sound) (create_receive_payment-ByNode w.db sound row)

  pub process_ldk_event-Move :
      (event : Event)
      → IsSound (process_ldk_event now payment event w).1.db
      → ByNode w.db sound (process_ldk_event now payment event w).1.db
  process_ldk_event-Move (Event.payment_received id amount) h = payment_received-ByNode id amount
  process_ldk_event-Move (Event.payment_successful none fee) h =
      unfold process_ldk_event in stays w.db sound
  process_ldk_event-Move (Event.payment_successful (some id) none) h =
      unfold process_ldk_event in stays w.db sound
  process_ldk_event-Move (Event.payment_successful (some id) (some fee)) h =
      let same = successful_tables now payment w id fee in
      rw same (update_send_status-ByNode w.db sound id "successful" fee (subst IsSound same h))
  process_ldk_event-Move (Event.payment_failed none) h =
      unfold process_ldk_event in stays w.db sound
  process_ldk_event-Move (Event.payment_failed (some id)) h =
      let same = failed_tables now payment w id in
      rw same (update_send_status-ByNode w.db sound id "failed" 0 (subst IsSound same h))
  process_ldk_event-Move Event.other h = unfold process_ldk_event in stays w.db sound

-- ===== src/LdkEvents/Solvency.antt =====
-- The node's events keep the ledger sound, if a payment costs no more than was set aside for it.
use puncture.Common.{
  ℕ, ◌≤◌, String, ◌≡◌, refl, false, Option, some, none, List, inl, inr, Option-cases, arith, find,
  ◌==◌, eq_iff,
}
use puncture.Common.Outcome.{ok_or}
use puncture.Models.{ReceiveRecord, SendRecord, Tables, insert_or_ignore}
use puncture.Ledger.{create_receive_payment, update_send_status}
use puncture.Ledger.Balance.{received, spent, received-append, cost}
use puncture.Ledger.Status.{
  resolve, update_send_status_lem, update_send_status-missing, update_send_status-DistinctIds,
}
use puncture.Handler.{World, continue}
use puncture.Handler.Keeps.{Either, Either-keeps, continue_keeps}
use puncture.Rpc.Solvency.{IsSound}
use puncture.LdkEvents.{Event, PaymentKind, receipt_of, store_receipt, process_ldk_event}

-- A receipt credits its user with at least nothing.
pub received-le :
    (u : String) (row : ReceiveRecord) (rows : List ReceiveRecord)
    → received u rows ≤ received u (insert_or_ignore (λ r. r.id) row rows)
received-le u row rows = ground (arith, received-append u row rows)

create_receive_payment-IsSound :
    (row : ReceiveRecord) (db : Tables) → IsSound db → IsSound (create_receive_payment db row)
unfolding create_receive_payment
create_receive_payment-IsSound row db sound = record {
  solvent = λ u. omega (arith, received-le u row db.receives, sound.solvent u);
  distinct = sound.distinct;
}

-- The row of a payment that succeeds has not failed, and its fee was set aside.
abbrev pub Settles : Event → Tables → Type 0
Settles (Event.payment_received id amount) db = Unit
Settles (Event.payment_successful id fee_paid) db =
    (i : String) (fee : ℕ) (s : SendRecord)
    → id ≡ some i
    → fee_paid ≡ some fee
    → find (λ (r : SendRecord). r.id == i) db.sends ≡ some s
    → ((s.status == "failed") ≡ false) × (fee ≤ s.fee_msat)
Settles (Event.payment_failed id) db = Unit
Settles Event.other db = Unit

-- The new cost of the row with the id is no more than the old one.
module _ (id status : String) (fee : ℕ) (db : Tables) (sound : IsSound db)
    (cheaper : (s : SendRecord)
      → find (λ (r : SendRecord). r.id == id) db.sends ≡ some s
      → cost (resolve status fee s) ≤ cost s) where
  update_send_status-solvent :
      (u : String)
      → spent u (update_send_status db id status fee).1.sends
        ≤ received u (update_send_status db id status fee).1.receives
  update_send_status-solvent u = elim (Option-cases (find (λ r. r.id == id) db.sends)) [
    | inl e ↦ rw (update_send_status-missing id status fee db e) (sound.solvent u)
    | inr (s, e) ↦
        let (row, same, change) = update_send_status_lem id status fee db s sound.distinct e in
        rw same (ground (arith, change u, sound.solvent u, cheaper s e))
  ]

  update_send_status-IsSound : IsSound (update_send_status db id status fee).1
  update_send_status-IsSound = record {
    solvent = update_send_status-solvent;
    distinct = update_send_status-DistinctIds id status fee db sound.distinct;
  }

-- A row that its sender can still pay for keeps the ledger sound, whatever it costs now.
module _ (id status : String) (fee : ℕ) (db : Tables) (sound : IsSound db) (s : SendRecord)
    (found : find (λ (r : SendRecord). r.id == id) db.sends ≡ some s)
    (covered : spent s.user_pk (update_send_status db id status fee).1.sends
      ≤ received s.user_pk db.receives) where
  update_send_status-covered :
      (u : String)
      → spent u (update_send_status db id status fee).1.sends
        ≤ received u (update_send_status db id status fee).1.receives
  update_send_status-covered u =
      let (row, same, change) = update_send_status_lem id status fee db s sound.distinct found in
      rw same (ground (arith, change u, sound.solvent u, covered, eq_iff s.user_pk u))

  pub covered-IsSound : IsSound (update_send_status db id status fee).1
  covered-IsSound = record {
    solvent = update_send_status-covered;
    distinct = update_send_status-DistinctIds id status fee db sound.distinct;
  }

pub store_receipt-Either :
    (amount : ℕ) (row : ReceiveRecord) (w : World)
    → Either (store_receipt amount row w).1.db w.db (create_receive_payment w.db row)
unfolding store_receipt
store_receipt-Either amount row w = ground arith

module _ (now : ℕ) (payment : String → Option PaymentKind) (w : World) where
  pub failed_tables :
      (id : String)
      → (process_ldk_event now payment (Event.payment_failed (some id)) w).1.db
        ≡ (update_send_status w.db id "failed" 0).1
  unfolding process_ldk_event
  failed_tables id = ground arith

  pub successful_tables :
      (id : String) (fee : ℕ)
      → (process_ldk_event now payment (Event.payment_successful (some id) (some fee)) w).1.db
        ≡ (update_send_status w.db id "successful" fee).1
  unfolding process_ldk_event
  successful_tables id fee = ground arith

module _ (now : ℕ) (payment : String → Option PaymentKind) (w : World) (sound : IsSound w.db) where
  payment_received-IsSound :
      (id : Option String) (amount : ℕ)
      → IsSound (process_ldk_event now payment (Event.payment_received id amount) w).1.db
  unfolding process_ldk_event
  payment_received-IsSound none amount = sound
  payment_received-IsSound (some id) amount =
      continue_keeps IsSound (ok_or (payment id) "Payment not found")
        (λ kind v. continue (receipt_of now kind id amount v.db) (store_receipt amount) v) w sound
        λ kind _.
          continue_keeps IsSound (receipt_of now kind id amount w.db) (store_receipt amount) w sound
            λ row _.
              Either-keeps IsSound (store_receipt-Either amount row w) sound
                (create_receive_payment-IsSound row w.db sound)

  -- An event of the node that settles a payment within its fee keeps the ledger sound.
  pub process_ldk_event-IsSound :
      (event : Event) → Settles event w.db → IsSound (process_ldk_event now payment event w).1.db
  process_ldk_event-IsSound (Event.payment_received id amount) h =
      payment_received-IsSound id amount
  process_ldk_event-IsSound (Event.payment_successful none fee) h =
      unfold process_ldk_event in sound
  process_ldk_event-IsSound (Event.payment_successful (some id) none) h =
      unfold process_ldk_event in sound
  process_ldk_event-IsSound (Event.payment_successful (some id) (some fee)) h =
      rw (successful_tables now payment w id fee) (
        update_send_status-IsSound id "successful" fee w.db sound
          λ s e. ground (arith, h id fee s refl refl e))
  process_ldk_event-IsSound (Event.payment_failed none) h = unfold process_ldk_event in sound
  process_ldk_event-IsSound (Event.payment_failed (some id)) h =
      rw (failed_tables now payment w id)
        (update_send_status-IsSound id "failed" 0 w.db sound λ s e. ground arith)
  process_ldk_event-IsSound Event.other h = unfold process_ldk_event in sound

-- ===== src/LdkEvents/Loop.antt =====
-- puncture-daemon/src/main.rs, `process_ldk_events`: the task that takes the node's reports one by
-- one until the daemon shuts down.
use puncture.Common.{
  ℕ, String, Bool, true, false, Option, some, List, [], ◌∷◌, ◌≡◌, refl, arith, inl, inr,
  Option-cases,
}
use puncture.Common.Outcome.{Outcome, ok, err, panic}
use puncture.Node.{Answer}
use puncture.Ledger
use puncture.Convert.{invoice_receipt, offer_receipt}
use puncture.Handler.{World, ◌>>=◌, reads}
use puncture.LdkEvents.{Event, PaymentKind, receipt_of, store_receipt, process_ldk_event}

-- What `select!` takes next: a report of the node at a time, with the payments that the node knows
-- then and its answer to `event_handled`, or the cancellation.
pub data Tick : Type 0 where
  next_event : ℕ → (String → Option PaymentKind) → Event → Answer (Unit {0}) → Tick
  cancelled : Tick

-- How the task is left: it stopped, a panic ended it, or it waits for the next report.
pub data LoopEnd : Type 0 where
  stopped : LoopEnd
  crashed : String → LoopEnd
  waiting : LoopEnd

-- An error is logged, both of the report and of `event_handled`, and the loop goes on.
unfoldable pub process_ldk_events : List Tick → World → LoopEnd × World
process_ldk_events [] w = (LoopEnd.waiting, w)
process_ldk_events (Tick.cancelled ∷ ticks) w = (LoopEnd.stopped, w)
process_ldk_events (Tick.next_event now payment event handled ∷ ticks) w =
    let (result, w') = process_ldk_event now payment event w in
    elim result [
      | ok _ ↦ process_ldk_events ticks w'
      | err _ ↦ process_ldk_events ticks w'
      | panic e ↦ (LoopEnd.crashed e, w')
    ]

-- The report names its payment, and its fee where it succeeded.
abbrev pub IsIdentified : Event → Type 0
IsIdentified (Event.payment_received id amount) = (i : String) × (id ≡ some i)
IsIdentified (Event.payment_successful id fee) =
    ((i : String) × (id ≡ some i)) × ((f : ℕ) × (fee ≡ some f))
IsIdentified (Event.payment_failed id) = (i : String) × (id ≡ some i)
IsIdentified Event.other = Unit

abbrev pub AllIdentified : List Tick → Type 0
AllIdentified [] = Unit
AllIdentified (Tick.cancelled ∷ ticks) = Unit
AllIdentified (Tick.next_event now payment event handled ∷ ticks) =
    IsIdentified event × AllIdentified ticks

-- Every report before the cancellation changes the state in turn, whether it is accepted or not.
abbrev pub after_reports : List Tick → World → World
after_reports [] w = w
after_reports (Tick.cancelled ∷ ticks) w = w
after_reports (Tick.next_event now payment event handled ∷ ticks) w =
    after_reports ticks (process_ldk_event now payment event w).1

-- The task waits until it is cancelled.
abbrev pub end_of : List Tick → LoopEnd
end_of [] = LoopEnd.waiting
end_of (Tick.cancelled ∷ ticks) = LoopEnd.stopped
end_of (Tick.next_event now payment event handled ∷ ticks) = end_of ticks

abbrev is_panic : {A : Type 0} → Outcome A → Bool
is_panic (ok a) = false
is_panic (err e) = false
is_panic (panic e) = true

-- A receipt is of the amount that the node reports, so that the assertion holds.
store_receipt-returns :
    (now amount : ℕ) (kind : PaymentKind) (id : String) (w : World)
    → is_panic ((reads (receipt_of now kind id amount) >>= store_receipt amount) w).0 ≡ false
unfolding receipt_of store_receipt invoice_receipt offer_receipt
store_receipt-returns now amount (PaymentKind.bolt11 hash) id w =
    elim (Option-cases (Ledger.get_invoice w.db hash)) [
      | inl missing ↦ ground arith
      | inr (invoice, known) ↦ ground arith
    ]
store_receipt-returns now amount (PaymentKind.bolt12_offer offer_id) id w =
    elim (Option-cases (Ledger.get_offer w.db offer_id)) [
      | inl missing ↦ ground arith
      | inr (offer, known) ↦ ground arith
    ]
store_receipt-returns now amount PaymentKind.unexpected id w = refl

identified_returns :
    (now : ℕ) (payment : String → Option PaymentKind) (event : Event) (w : World)
    → IsIdentified event
    → is_panic (process_ldk_event now payment event w).0 ≡ false
unfolding process_ldk_event
identified_returns now payment (Event.payment_received id amount) w (i, e) =
    elim (Option-cases (payment i)) [
      | inl unknown ↦ rw (e, unknown) refl
      | inr (kind, known) ↦ rw (e, known) (store_receipt-returns now amount kind i w)
    ]
identified_returns now payment (Event.payment_successful id fee) w ((i, e), (f, g)) =
    rw (e, g) (ground arith)
identified_returns now payment (Event.payment_failed id) w (i, e) = rw e (ground arith)
identified_returns now payment Event.other w h = refl

-- The task takes every report before the cancellation in turn, where each report is identified.
pub process_ldk_events_lem :
    (ticks : List Tick) (w : World)
    → AllIdentified ticks
    → process_ldk_events ticks w ≡ (end_of ticks, after_reports ticks w)
unfolding process_ldk_events
process_ldk_events_lem [] w h = refl
process_ldk_events_lem (Tick.cancelled ∷ ticks) w h = refl
process_ldk_events_lem (Tick.next_event now payment event handled ∷ ticks) w (i, h) = ground (
  arith,
  identified_returns now payment event w i,
  process_ldk_events_lem ticks (process_ldk_event now payment event w).1 h,
)

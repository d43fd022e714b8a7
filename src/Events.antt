-- ===== src/Events.antt =====
-- puncture-daemon/src/events.rs: the event bus. A broadcast channel of tokio carries the events;
-- what it delivers to a subscriber, lags included, is a parameter.
pub mod Delivery
use puncture.Common.{ℕ, String, Option, none, some, List, [], ◌∷◌, ◌==◌, if◌then◌else◌}
use puncture.Common.Outcome.{Outcome, ok, err}
use puncture.ClientCore.{Payment, AppEvent}
use puncture.Handler.{M, publish}

abbrev pub send_balance_event : String → ℕ → M (Unit {0})
send_balance_event user_id amount_msat =
    publish user_id (AppEvent.balance (record { amount_msat = amount_msat }))

abbrev pub send_payment_event : String → Payment → M (Unit {0})
send_payment_event user_id payment = publish user_id (AppEvent.payment payment)

abbrev pub send_update_event : String → String → String → ℕ → M (Unit {0})
send_update_event user_id id status fee_msat =
    publish user_id (AppEvent.update (record { id = id; status = status; fee_msat = fee_msat }))

-- What a receiver of the channel gets: an event with its user, or the error of a lag.
pub data Received : Type 0 where
  event : String → AppEvent → Received
  lagged : String → Received

-- `filter`
unfoldable pub filter_event : String → Received → Option (Outcome AppEvent)
filter_event user_id (Received.event event_user_id e) =
    if event_user_id == user_id then some (ok e) else none
filter_event user_id (Received.lagged e) = some (err e)

-- `BroadcastStream::new(…).filter_map(…)`
unfoldable pub subscribe_to_events : String → List Received → List (Outcome AppEvent)
unfolding filter_event
subscribe_to_events user_id [] = []
subscribe_to_events user_id (r ∷ items) =
    let rest = subscribe_to_events user_id items in
    elim (filter_event user_id r) [ none ↦ rest | some item ↦ item ∷ rest ]

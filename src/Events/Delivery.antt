-- ===== src/Events/Delivery.antt =====
-- A subscriber gets the events of one user, all of them and in order.
use puncture.Common.{String, ◌≡◌, refl, List, [], ◌∷◌, map, filter, arith, ◌==◌}
use puncture.Common.Outcome.{ok}
use puncture.ClientCore.{AppEvent}
use puncture.Events.{Received, subscribe_to_events}

-- The events of a bus as a receiver that never lags gets them.
abbrev pub prompt : List (String × AppEvent) → List Received
prompt [] = []
prompt ((u, e) ∷ bus) = Received.event u e ∷ prompt bus

-- The events of one user on the bus.
abbrev pub own : String → List (String × AppEvent) → List AppEvent
own user_id bus = map (λ (p : String × AppEvent). p.1) (filter (λ p. p.0 == user_id) bus)

-- A subscriber whose receiver never lags gets exactly the events on the bus that are for that user,
-- in the order in which they were sent.
pub subscribe_to_events-prompt :
    (user_id : String) (bus : List (String × AppEvent))
    → subscribe_to_events user_id (prompt bus) ≡ map (λ (e : AppEvent). ok e) (own user_id bus)
unfolding subscribe_to_events
subscribe_to_events-prompt user_id [] = refl
subscribe_to_events-prompt user_id ((u, e) ∷ bus) =
    ground (arith, subscribe_to_events-prompt user_id bus)

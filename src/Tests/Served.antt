-- ===== src/Tests/Served.antt =====
-- One connection of Alice to the small daemon.
use puncture.Common.{◌≡◌, refl, true, List, [], ◌∷◌, ◌++◌}
use puncture.Common.Outcome.{ok, err}
use puncture.ClientCore.{AppEvent}
use puncture.ClientDb.{user_exists, set_recovery_name as store_recovery_name}
use puncture.Node.{Answer}
use puncture.Rpc.Account.{set_recovery_name, check_recovery_name}
use puncture.Api.{handle_request}
use puncture.Api.Messages.{ClientRpcRequest}
use puncture.Api.Drive.{Input, End, drive_connection}
use puncture.Api.Drive.Served.{
  IsFatal, SameService, all_return, handle_all, requests_of, events_of, connection_served,
  connection_stops,
}
use puncture.Tests.Data.{env, shop}
use puncture.Tests.Requests.{codec}

abbrev clears_name : ClientRpcRequest
clears_name = record { method = "set_recovery_name"; request = "{}" }

abbrev unknown : ClientRpcRequest
unknown = record { method = "withdraw"; request = "{}" }

abbrev balance : AppEvent
balance = AppEvent.balance (record { amount_msat = 5000 })

-- A request, an event, and a request that is refused.
abbrev inputs : List Input
inputs =
    Input.stream env (Answer.granted clears_name) true
    ∷ Input.event (ok balance) true
    ∷ Input.others (λ w. record w { bus = [] })
    ∷ Input.stream env (Answer.granted unknown) true
    ∷ []

calm : all_return (handle_all codec "alice" (requests_of inputs) shop).0 ≡ true
unfolding handle_request set_recovery_name check_recovery_name user_exists store_recovery_name
calm = refl

connection_served_example : drive_connection codec "alice" inputs shop ≡ record {
  end = End.running;
  responses = (handle_all codec "alice" (requests_of inputs) shop).0;
  events = events_of inputs;
  world = (handle_all codec "alice" (requests_of inputs) shop).1;
}
connection_served_example =
    connection_served codec "alice" inputs shop (refl, (refl, (refl, tt))) calm

goes_on : (drive_connection codec "alice" inputs shop).end ≡ End.running
unfolding drive_connection handle_request set_recovery_name check_recovery_name user_exists
    store_recovery_name
goes_on = refl

-- After a lag, what Alice asks is not answered.
connection_stops_example :
    SameService
      (drive_connection codec "alice"
        (inputs
          ++ Input.event (err "channel lagged by 3") true
            ∷ Input.stream env (Answer.granted clears_name) true
            ∷ [])
        shop)
      (drive_connection codec "alice" inputs shop)
connection_stops_example =
    connection_stops codec "alice" inputs (Input.stream env (Answer.granted clears_name) true ∷ [])
      (Input.event (err "channel lagged by 3") true) shop goes_on
      (IsFatal.lag "channel lagged by 3" true)

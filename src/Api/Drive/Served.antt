-- ===== src/Api/Drive/Served.antt =====
-- What a connection is served, and when the daemon stops serving it.
use puncture.Common.{String, ◌≡◌, refl, Bool, true, false, List, [], ◌∷◌, ◌++◌, ◌&&◌, arith}
use puncture.Common.Outcome.{Outcome, ok, err, panic}
use puncture.ClientCore.{AppEvent}
use puncture.Node.{Answer}
use puncture.Handler.{Env, World}
use puncture.Api.{handle_request}
use puncture.Api.Messages.{Codec, ClientRpcRequest, Response}
use puncture.Api.Drive.{Input, End, Driven, respond_on, send_event, drive_connection}

-- The inputs are requests that can be read and answered, and events that can be sent.
abbrev pub AllSound : List Input → Type 0
AllSound [] = Unit
AllSound (Input.stream env (Answer.refused e) writable ∷ inputs) = ⊥
AllSound (Input.stream env (Answer.granted r) writable ∷ inputs) =
    (writable ≡ true) × AllSound inputs
AllSound (Input.closed ∷ inputs) = ⊥
AllSound (Input.event (ok e) sendable ∷ inputs) = (sendable ≡ true) × AllSound inputs
AllSound (Input.event (err e) sendable ∷ inputs) = ⊥
AllSound (Input.event (panic e) sendable ∷ inputs) = ⊥
AllSound (Input.cancelled ∷ inputs) = ⊥
AllSound (Input.others work ∷ inputs) = AllSound inputs

-- The requests with the work of others between them, and the events alone.
pub data Turn : Type 0 where
  asks : Env → ClientRpcRequest → Turn
  others : (World → World) → Turn

abbrev pub requests_of : List Input → List Turn
requests_of [] = []
requests_of (Input.stream env (Answer.refused e) writable ∷ inputs) = requests_of inputs
requests_of (Input.stream env (Answer.granted r) writable ∷ inputs) =
    Turn.asks env r ∷ requests_of inputs
requests_of (Input.closed ∷ inputs) = requests_of inputs
requests_of (Input.event e sendable ∷ inputs) = requests_of inputs
requests_of (Input.cancelled ∷ inputs) = requests_of inputs
requests_of (Input.others work ∷ inputs) = Turn.others work ∷ requests_of inputs

abbrev pub events_of : List Input → List AppEvent
events_of [] = []
events_of (Input.stream env r writable ∷ inputs) = events_of inputs
events_of (Input.closed ∷ inputs) = events_of inputs
events_of (Input.event (ok e) sendable ∷ inputs) = e ∷ events_of inputs
events_of (Input.event (err e) sendable ∷ inputs) = events_of inputs
events_of (Input.event (panic e) sendable ∷ inputs) = events_of inputs
events_of (Input.cancelled ∷ inputs) = events_of inputs
events_of (Input.others work ∷ inputs) = events_of inputs

abbrev pub returns : Outcome Response → Bool
returns (ok r) = true
returns (err e) = true
returns (panic e) = false

abbrev pub all_return : List (Outcome Response) → Bool
all_return [] = true
all_return (r ∷ responses) = returns r && all_return responses

respond_on-returns :
    (r : Outcome Response) (writable : Bool) (w : World) (rest : Driven)
    → writable ≡ true
    → returns r ≡ true
    → respond_on r writable w rest ≡ record rest { responses = r ∷ rest.responses }
respond_on-returns (ok r) writable w rest e calm = rw e refl
respond_on-returns (err m) writable w rest e calm = rw e refl
respond_on-returns (panic m) writable w rest e calm = ground arith

module _ (codec : Codec) (user_id : String) where
  -- The requests of a user, one after another, with the work of others between them.
  abbrev pub handle_all : List Turn → World → List (Outcome Response) × World
  handle_all [] w = ([], w)
  handle_all (Turn.others work ∷ requests) w = handle_all requests (work w)
  handle_all (Turn.asks env request ∷ requests) w =
      let (r, w') = handle_request codec env user_id request w in
      let (rs, w'') = handle_all requests w' in (r ∷ rs, w'')

  -- While a connection brings requests that can be read and answered and events that can be sent,
  -- and no handler panics, whatever others do to the tables: the daemon goes on, each request is answered in order as if there were
  -- no events between them, and each event is sent in order.
  pub connection_served :
      (inputs : List Input) (w : World)
      → AllSound inputs
      → all_return (handle_all (requests_of inputs) w).0 ≡ true
      → drive_connection codec user_id inputs w ≡ record {
        end = End.running;
        responses = (handle_all (requests_of inputs) w).0;
        events = events_of inputs;
        world = (handle_all (requests_of inputs) w).1;
      }
  unfolding drive_connection
  connection_served [] w sound calm = refl
  connection_served (Input.stream env (Answer.granted q) writable ∷ inputs) w sound calm =
      let (r, w') = handle_request codec env user_id q w in
      let later = connection_served inputs w' sound.1 (ground (arith, calm)) in
      rw later (respond_on-returns r writable w' _ sound.0 (ground (arith, calm)))
  connection_served (Input.event (ok e) sendable ∷ inputs) w sound calm =
      rw (sound.0, connection_served inputs w sound.1 calm) refl
  connection_served (Input.stream env (Answer.refused m) writable ∷ inputs) w sound calm =
      elim sound [ ]
  connection_served (Input.closed ∷ inputs) w sound calm = elim sound [ ]
  connection_served (Input.event (err m) sendable ∷ inputs) w sound calm = elim sound [ ]
  connection_served (Input.event (panic m) sendable ∷ inputs) w sound calm = elim sound [ ]
  connection_served (Input.cancelled ∷ inputs) w sound calm = elim sound [ ]
  connection_served (Input.others work ∷ inputs) w sound calm =
      connection_served inputs (work w) sound calm

-- A request that cannot be read, or the error of a lag in place of an event.
pub data IsFatal : Input → Type 0 where
  unreadable : (env : Env) (m : String) (b : Bool) → IsFatal (Input.stream env (Answer.refused m) b)
  lag : (m : String) (b : Bool) → IsFatal (Input.event (err m) b)

abbrev pub is_failed : End → Bool
is_failed End.running = false
is_failed End.finished = false
is_failed (End.failed e) = true
is_failed (End.panicked e) = false

-- The loop ended with an error, and what the connection was served is what it was before.
abbrev pub SameService : Driven → Driven → Type 0
SameService d before =
    (is_failed d.end ≡ true)
    × (d.responses ≡ before.responses)
    × (d.events ≡ before.events)
    × (d.world ≡ before.world)

respond_on-SameService :
    (r : Outcome Response) (writable : Bool) (w : World) (d before : Driven)
    → (respond_on r writable w before).end ≡ End.running
    → (before.end ≡ End.running → SameService d before)
    → SameService (respond_on r writable w d) (respond_on r writable w before)
respond_on-SameService (ok r) true w d before e same = ground (arith, same)
respond_on-SameService (ok r) false w d before e same = ground (arith, same)
respond_on-SameService (err m) true w d before e same = ground (arith, same)
respond_on-SameService (err m) false w d before e same = ground (arith, same)
respond_on-SameService (panic m) writable w d before e same = ground (arith, same)

send_event-SameService :
    (x : Outcome AppEvent) (sendable : Bool) (w : World) (d before : Driven)
    → (send_event x sendable w before).end ≡ End.running
    → (before.end ≡ End.running → SameService d before)
    → SameService (send_event x sendable w d) (send_event x sendable w before)
send_event-SameService (ok a) true w d before e same = ground (arith, same)
send_event-SameService (ok a) false w d before e same = ground (arith, same)
send_event-SameService (err m) sendable w d before e same = ground (arith, same)
send_event-SameService (panic m) sendable w d before e same = ground (arith, same)

module _ (codec : Codec) (user_id : String) where
  stops_at_once :
      (i : Input) (rest : List Input) (w : World)
      → IsFatal i
      → let d = drive_connection codec user_id (i ∷ rest) w in
        (is_failed d.end ≡ true) × (d.responses ≡ []) × (d.events ≡ []) × (d.world ≡ w)
  unfolding drive_connection
  stops_at_once i rest w (IsFatal.unreadable env m b) = (refl, refl, refl, refl)
  stops_at_once i rest w (IsFatal.lag m b) = (refl, refl, refl, refl)

  -- Once a request cannot be read, or the user's stream of events lags, a connection that was
  -- served until then is served no more: the loop ends with an error, and nothing that comes after
  -- is answered, sent or run.
  pub connection_stops :
      (inputs rest : List Input) (i : Input) (w : World)
      → (drive_connection codec user_id inputs w).end ≡ End.running
      → IsFatal i
      → SameService
          (drive_connection codec user_id (inputs ++ i ∷ rest) w)
          (drive_connection codec user_id inputs w)
  unfolding drive_connection
  connection_stops [] rest i w goes stops = stops_at_once i rest w stops
  connection_stops (Input.stream env (Answer.granted q) writable ∷ inputs) rest i w goes stops =
      let (r, w') = handle_request codec env user_id q w in
      respond_on-SameService r writable w' (drive_connection codec user_id (inputs ++ i ∷ rest) w')
        (drive_connection codec user_id inputs w') goes
        λ e. connection_stops inputs rest i w' e stops
  connection_stops (Input.event x sendable ∷ inputs) rest i w goes stops =
      send_event-SameService x sendable w (drive_connection codec user_id (inputs ++ i ∷ rest) w)
        (drive_connection codec user_id inputs w) goes λ e. connection_stops inputs rest i w e stops
  connection_stops (Input.stream env (Answer.refused m) writable ∷ inputs) rest i w goes stops =
      ground (arith, goes)
  connection_stops (Input.closed ∷ inputs) rest i w goes stops = ground (arith, goes)
  connection_stops (Input.cancelled ∷ inputs) rest i w goes stops = ground (arith, goes)
  connection_stops (Input.others work ∷ inputs) rest i w goes stops =
      connection_stops inputs rest i (work w) goes stops

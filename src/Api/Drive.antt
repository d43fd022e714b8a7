-- ===== src/Api/Drive.antt =====
-- puncture-daemon/src/client/mod.rs, `drive_connection`: what the daemon does with one connection,
-- input by input. The order in which `select!` takes them, and the streams, are the inputs.
pub mod Served
use puncture.Common.{String, Bool, List, [], ◌∷◌, if◌then◌else◌}
use puncture.Common.Outcome.{Outcome, ok, err, panic}
use puncture.ClientCore.{AppEvent}
use puncture.Node.{Answer}
use puncture.Handler.{Env, World}
use puncture.Api.{handle_request}
use puncture.Api.Messages.{Codec, ClientRpcRequest, Response}

-- A stream of the client with what is read of it, and whether the response can be written; the end
-- of the connection; the next event of the user's stream, and whether it can be sent; the shutdown.
pub data Input : Type 0 where
  stream : Env → Answer ClientRpcRequest → Bool → Input
  closed : Input
  event : Outcome AppEvent → Bool → Input
  cancelled : Input
  others : (World → World) → Input

-- `failed` is `Err`, which leaves the connection open.
pub data End : Type 0 where
  running : End
  finished : End
  failed : String → End
  panicked : String → End

pub record Driven : Type 0 where
  pub end : End
  pub responses : List (Outcome Response)
  pub events : List AppEvent
  pub world : World

abbrev stop : End → World → Driven
stop e w = record { end = e; responses = []; events = []; world = w }

abbrev add_response : Outcome Response → Driven → Driven
add_response r d = record d { responses = r ∷ d.responses }

abbrev add_event : AppEvent → Driven → Driven
add_event e d = record d { events = e ∷ d.events }

-- The end of `handle_request`: the response is written, a panic ends the task.
abbrev respond_on : Outcome Response → Bool → World → Driven → Driven
respond_on (panic e) writable w rest = stop (End.panicked e) w
respond_on (ok r) writable w rest =
    if writable then add_response (ok r) rest else stop (End.failed "stream") w
respond_on (err e) writable w rest =
    if writable then add_response (err e) rest else stop (End.failed "stream") w

abbrev send_event : Outcome AppEvent → Bool → World → Driven → Driven
send_event (ok e) sendable w rest =
    if sendable then add_event e rest else stop (End.failed "stream") w
send_event (err e) sendable w rest = stop (End.failed e) w
send_event (panic e) sendable w rest = stop (End.panicked e) w

module _ (codec : Codec) (user_id : String) where
  unfoldable pub drive_connection : List Input → World → Driven
  drive_connection [] w = stop End.running w
  drive_connection (Input.stream env (Answer.refused e) writable ∷ inputs) w = stop (End.failed e) w
  drive_connection (Input.stream env (Answer.granted request) writable ∷ inputs) w =
      let (r, w') = handle_request codec env user_id request w in
      respond_on r writable w' (drive_connection inputs w')
  drive_connection (Input.closed ∷ inputs) w = stop End.finished w
  drive_connection (Input.event e sendable ∷ inputs) w =
      send_event e sendable w (drive_connection inputs w)
  drive_connection (Input.cancelled ∷ inputs) w = stop End.finished w
  drive_connection (Input.others work ∷ inputs) w = drive_connection inputs (work w)

-- ===== src/Client/Events.antt =====
-- puncture-client/src/lib.rs, `next_event` and `accept_event`: how a client gets the events that the
-- daemon sends, each on a stream of its own. A stream that cannot be read to its end is gone, with its
-- event.
use puncture.Common.{ℕ, suc, String, Option, none, some, List, [], ◌∷◌}
use puncture.Common.Outcome.{Outcome, ok, err, panic}
use puncture.Node.{Answer}
use puncture.ClientCore.{AppEvent}

-- What one call of `accept_event` finds: no connection, a stream that cannot be accepted or read, or
-- the text of a stream.
pub data Attempt : Type 0 where
  disconnected : Attempt
  lost : String → Attempt
  stream : String → Attempt

-- `serde_json::from_slice(&event)?`
abbrev decoded : Answer AppEvent → Outcome AppEvent
decoded (Answer.granted event) = ok event
decoded (Answer.refused e) = err e

module _ (from_slice : String → Answer AppEvent) where
  unfoldable pub accept_event : Attempt → Outcome AppEvent
  accept_event Attempt.disconnected = err "Disconnected"
  accept_event (Attempt.lost e) = err e
  accept_event (Attempt.stream text) = decoded (from_slice text)

  -- The loop, with the seconds that it sleeps and the attempts that it leaves; without an event in
  -- the attempts it still waits.
  unfoldable pub next_event : List Attempt → Option AppEvent × ℕ × List Attempt
  unfolding accept_event
  next_event [] = (none, 0, [])
  next_event (attempt ∷ attempts) =
      let (event, seconds, rest) = next_event attempts in
      elim (accept_event attempt) [
        | ok e ↦ (some e, 0, attempts)
        | err e ↦ (event, suc seconds, rest)
        | panic e ↦ (event, suc seconds, rest)
      ]

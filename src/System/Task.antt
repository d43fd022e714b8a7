-- ===== src/System/Task.antt =====
-- The task over the node's reports, as steps of the daemon.
use puncture.Common.{List, [], ◌∷◌, ◌≡◌}
use puncture.Handler.{World}
use puncture.LdkEvents.{process_ldk_event}
use puncture.LdkEvents.Loop.{
  Tick, process_ldk_events, AllIdentified, after_reports, end_of, process_ldk_events_lem,
}
use puncture.System.{Step, Reach}

after_reports-Reach : (ticks : List Tick) (w : World) → Reach w → Reach (after_reports ticks w)
after_reports-Reach [] w r = r
after_reports-Reach (Tick.cancelled ∷ ticks) w r = r
after_reports-Reach (Tick.next_event now payment event handled ∷ ticks) w r =
    after_reports-Reach ticks (process_ldk_event now payment event w).1
      (Reach.next r (Step.ldk_event now payment event))

-- Where each report names its payment, and its fee where it succeeded, the task over the node's
-- reports does not end by a panic: it takes every report before the cancellation in turn, those that
-- it refuses too, and then stops, or waits if it is not cancelled. Where it starts in a state that the
-- daemon reaches, the daemon reaches the state that it leaves.
pub events_task_reached :
    (ticks : List Tick) (w : World)
    → Reach w
    → AllIdentified ticks
    → (process_ldk_events ticks w ≡ (end_of ticks, after_reports ticks w))
      × Reach (process_ldk_events ticks w).1
events_task_reached ticks w reached identified =
    let same = process_ldk_events_lem ticks w identified in
    (same, rw same (after_reports-Reach ticks w reached))

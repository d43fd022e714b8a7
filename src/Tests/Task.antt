-- ===== src/Tests/Task.antt =====
-- The task over the node's reports, run on a small daemon.
use puncture.Common.{some, List, [], ◌∷◌, ◌≡◌, refl}
use puncture.Node.{Answer}
use puncture.LdkEvents.{Event}
use puncture.LdkEvents.Loop.{Tick, process_ldk_events, after_reports, end_of}
use puncture.System.{Step, Reach}
use puncture.System.Task.{events_task_reached}
use puncture.Tests.Data.{env}
use puncture.Tests.Runs.{codec, asks, asked, known, joined-Reach, joined_Fits, default_IsSane}

-- Alice's invoice is paid, a payment that is not known fails, and the daemon shuts down.
abbrev reports : List Tick
reports =
    Tick.next_event 6000 known (Event.payment_received (some "p1") 5000000) (Answer.granted tt)
    ∷ Tick.next_event 6500 known (Event.payment_failed (some "h0")) (Answer.refused "busy")
    ∷ Tick.cancelled
    ∷ []

events_task_reached_example :
    (process_ldk_events reports asked ≡ (end_of reports, after_reports reports asked))
    × Reach (process_ldk_events reports asked).1
events_task_reached_example =
    events_task_reached reports asked
      (Reach.next joined-Reach (Step.request codec env "alice" asks default_IsSane joined_Fits))
      (("p1", refl), (("h0", refl), tt))

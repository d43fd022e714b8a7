-- ===== src/Tests/Moves.antt =====
-- A step of a run as a move between accounts.
use puncture.Common.{◌⊎◌}
use puncture.System.Solvency.{Overrun}
use puncture.Bank.{accounts, claims, Move}
use puncture.Bank.Refines.{Step-Move, actor}
use puncture.Tests.Runs.{paid, sending, paid-Reach, pays_step}

Step-Move_example :
    Overrun sending
    ⊎ Move (claims paid.db) (accounts paid.db) (accounts sending.db) (actor pays_step)
Step-Move_example = Step-Move paid-Reach pays_step

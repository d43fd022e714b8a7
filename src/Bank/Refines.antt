-- ===== src/Bank/Refines.antt =====
-- The daemon refines the accounts: each step is at most one move, of the actor who took it.
use puncture.Common.{◌⊎◌, inl, inr}
use puncture.Rpc.Solvency.{IsSound}
use puncture.Handler.{World}
use puncture.Admin.{user_invite, user_recover, invite_submit, recovery_submit}
use puncture.Admin.Ledger.{
  user_invite-SameLedger, user_recover-SameLedger, invite_submit-SameLedger,
  recovery_submit-SameLedger,
}
use puncture.System.{Step, Reach}
use puncture.System.Solvency.{Overrun, Step-IsSound, Reach-IsSound}
use puncture.Bank.{accounts, claims, Actor, Move}
use puncture.Bank.Inserts.{SameLedger-Same}
use puncture.Bank.Requests.{presented, handle_request-Move}
use puncture.Bank.Events.{process_ldk_event-Move}

abbrev pub actor : {w w' : World} → Step w w' → Actor
actor (Step.request codec env user_id r sane fits) = Actor.client user_id (presented codec r)
actor (Step.ldk_event now payment event) = Actor.node
actor (Step.cli_invite codec now id node_id r) = Actor.operator
actor (Step.cli_recover codec now id node_id r) = Actor.operator
actor (Step.ui_invite codec now id node_id r) = Actor.operator
actor (Step.ui_recover codec now id node_id user_pk) = Actor.operator

moved :
    {w w' : World} (step : Step w w')
    → IsSound w.db
    → IsSound w'.db
    → Move (claims w.db) (accounts w.db) (accounts w'.db) (actor step)
moved {w} (Step.request codec env u request sane fits) h h' =
    handle_request-Move env u w h sane fits codec request
moved {w} (Step.ldk_event now payment event) h h' = process_ldk_event-Move now payment w h event h'
moved {w} (Step.cli_invite codec now id node_id q) h h' = Move.stay (
    SameLedger-Same (user_invite codec now id node_id q w).1.db w.db
      (user_invite-SameLedger codec now id node_id w q))
moved {w} (Step.cli_recover codec now id node_id q) h h' = Move.stay (
    SameLedger-Same (user_recover codec now id node_id q w).1.db w.db
      (user_recover-SameLedger codec now id node_id w q))
moved {w} (Step.ui_invite codec now id node_id q) h h' = Move.stay (
    SameLedger-Same (invite_submit codec now id node_id q w).1.db w.db
      (invite_submit-SameLedger codec now id node_id w q))
moved {w} (Step.ui_recover codec now id node_id u) h h' = Move.stay (
    SameLedger-Same (recovery_submit codec now id node_id u w).1.db w.db
      (recovery_submit-SameLedger codec now id node_id w u))

-- In every reachable state, whatever step the daemon takes next, either a report of the node has by
-- then overdrawn a user, or what the tables stand for makes one move that the step's actor may make,
-- or none: a user pays another user for a fee of one satoshi, pays out of the daemon, or presents the
-- id of a stored recovery and collects the whole account that this recovery is for, never more than
-- the payer's account holds; a report of the node brings money in for one user, or charges one user
-- no more than the account holds; and the operator moves nothing. A request is handled with a base
-- fee from 1000 msat to below 2 ^ 62, an on-chain base fee below 2 ^ 62, and receipts of each user
-- below 2 ^ 63 msat.
pub Step-Move :
    {w w' : World}
    → Reach w
    → (step : Step w w')
    → Overrun w' ⊎ Move (claims w.db) (accounts w.db) (accounts w'.db) (actor step)
Step-Move r step = elim (Reach-IsSound r) [
  | inl over ↦ inl (Overrun.later over step)
  | inr h ↦ elim (Step-IsSound step h) [ inl over ↦ inl over | inr h' ↦ inr (moved step h h') ]
]

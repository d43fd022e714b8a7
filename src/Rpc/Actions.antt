-- ===== src/Rpc/Actions.antt =====
-- The parts that the handlers share: updates that cannot fail, and the events of a payment.
use puncture.Common.{String}
use puncture.Common.Outcome.{ok}
use puncture.Models.{Tables}
use puncture.ClientCore.{Payment}
use puncture.Ledger
use puncture.Handler.{M, ◌>>=◌, ◌>>◌, reads, writes}
use puncture.Events.{send_balance_event, send_payment_event}

-- An `UPDATE` or an `INSERT … DO NOTHING`, which cannot fail.
abbrev pub update_tables : (Tables → Tables) → M (Unit {0})
update_tables f = writes (λ db. ok (tt, f db))

unfoldable pub push_events : String → Payment → M (Unit {0})
push_events user_pk payment = do
  balance_msat ← reads (λ db. ok (Ledger.user_balance db user_pk))
  send_balance_event user_pk balance_msat
  send_payment_event user_pk payment

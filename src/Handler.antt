-- ===== src/Handler.antt =====
-- The state that a request runs on, and its actions. A handler holds the lock of the database
-- connection (puncture-core/src/db.rs) from its first query to its end, so it runs as one action.
-- What it did before an error or a panic stays done.
pub mod Keeps
use puncture.Common.{ℕ, String, List, [], ◌∷◌, ◌++◌}
use puncture.Common.Outcome.{Outcome, ok, err, panic}
use puncture.Models.{Tables}
use puncture.ClientCore.{Payment, AppEvent}
use puncture.Node.{Node, NodeCall}

-- The options of the daemon that the handlers read (`Args` in puncture-daemon/src/main.rs).
pub record Args : Type 0 where
  pub bitcoin_network : String
  pub daemon_name : String
  pub fee_ppm : ℕ
  pub base_fee_msat : ℕ
  pub invoice_expiry_secs : ℕ
  pub onchain_base_fee_msat : ℕ
  pub min_amount_sats : ℕ
  pub max_amount_sats : ℕ
  pub max_pending_payments_per_user : ℕ

-- What one request runs with: the options, the time, the id that the random generator draws for
-- a transfer, and the answers of the node.
pub record Env : Type 0 where
  pub args : Args
  pub now : ℕ
  pub transfer_id : String
  pub node : Node

-- The tables, the events sent on the bus and the calls made to the node, oldest first.
pub record World : Type 0 where
  pub db : Tables
  pub bus : List (String × AppEvent)
  pub calls : List NodeCall

abbrev pub M : Type 0 → Type 0
M A = World → Outcome A × World

abbrev pub continue : {A B : Type 0} → Outcome A → (A → M B) → M B
continue (ok a) f w = f a w
continue (err e) f w = (err e, w)
continue (panic e) f w = (panic e, w)

infixl 5 ◌>>=◌ ◌>>◌
abbrev pub ◌>>=◌ : {A B : Type 0} → M A → (A → M B) → M B
◌>>=◌ m f w = let (r, w') = m w in continue r f w'

abbrev pub ◌>>◌ : {A B : Type 0} → M A → M B → M B
m >> k = m >>= λ _. k

module _ {A : Type 0} where
  abbrev pub pure : A → M A
  pure a w = (ok a, w)

  abbrev pub lift : Outcome A → M A
  lift r w = (r, w)

  -- A query, which may end the request.
  abbrev pub reads : (Tables → Outcome A) → M A
  reads f w = (f w.db, w)

  abbrev written : Outcome (A × Tables) → M A
  written (ok (a, db)) w = (ok a, record w { db = db })
  written (err e) w = (err e, w)
  written (panic e) w = (panic e, w)

  -- A change of the tables. One that fails leaves them as they were.
  abbrev pub writes : (Tables → Outcome (A × Tables)) → M A
  writes f w = written (f w.db) w

-- `EventBus::send_…`: the event stands on the bus with the user it is for.
abbrev pub publish : String → AppEvent → M (Unit {0})
publish user_id event w = (ok tt, record w { bus = w.bus ++ (user_id, event) ∷ [] })

abbrev pub call : NodeCall → M (Unit {0})
call c w = (ok tt, record w { calls = w.calls ++ c ∷ [] })

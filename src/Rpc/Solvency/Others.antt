-- ===== src/Rpc/Solvency/Others.antt =====
-- The handlers that move no money leave the sends and the receipts alone.
use puncture.Common.{String, ◌≡◌, arith}
use puncture.Models.{Tables}
use puncture.ClientCore.{RegisterRequest, Bolt11ReceiveRequest, SetRecoveryNameRequest}
use puncture.ClientDb.{
  register_user_with_invite, create_invoice, create_offer, set_recovery_name as store_recovery_name,
}
use puncture.Handler.{Env, World}
use puncture.Rpc.Account.{register, set_recovery_name}
use puncture.Rpc.Receive.{bolt11_receive, bolt12_receive}
use puncture.Rpc.Solvency.{IsSound}

-- No row of the ledger is touched.
abbrev pub SameLedger : Tables → Tables → Type 0
SameLedger db' db = (db'.sends ≡ db.sends) × (db'.receives ≡ db.receives)

pub SameLedger-IsSound : (db' db : Tables) → SameLedger db' db → IsSound db → IsSound db'
SameLedger-IsSound db' db same sound = record {
  solvent = λ u. rw (same.0, same.1) (sound.solvent u);
  distinct = rw same.0 sound.distinct;
}

module _ (env : Env) (u : String) (w : World) where
  pub register-SameLedger :
      (request : RegisterRequest) → SameLedger (register env u request w).1.db w.db
  unfolding register register_user_with_invite
  register-SameLedger request = ground arith

  pub set_recovery_name-SameLedger :
      (request : SetRecoveryNameRequest) → SameLedger (set_recovery_name env u request w).1.db w.db
  unfolding set_recovery_name store_recovery_name
  set_recovery_name-SameLedger request = ground arith

  pub bolt11_receive-SameLedger :
      (request : Bolt11ReceiveRequest) → SameLedger (bolt11_receive env u request w).1.db w.db
  unfolding bolt11_receive create_invoice
  bolt11_receive-SameLedger request = ground arith

  pub bolt12_receive-SameLedger : SameLedger (bolt12_receive env u w).1.db w.db
  unfolding bolt12_receive create_offer
  bolt12_receive-SameLedger = ground arith

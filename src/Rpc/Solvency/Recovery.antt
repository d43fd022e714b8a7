-- ===== src/Rpc/Solvency/Recovery.antt =====
-- A recovery keeps the ledger sound: it moves exactly what the account still has.
use puncture.Common.{String, ◌≡◌, arith, some, none, inl, inr, Option-cases}
use puncture.ClientCore.{RecoverRequest}
use puncture.Models.{RecoveryRecord}
use puncture.Ledger
use puncture.Ledger.Balance.{Fits, user_balance_lem}
use puncture.ClientDb.{get_recovery, create_internal_transfer}
use puncture.Handler.{Env, World}
use puncture.Handler.Keeps.{tables_after, Either, Either-keeps}
use puncture.Rpc.Actions.{push_events}
use puncture.Rpc.Account.{recover}
use puncture.Rpc.Solvency.{IsSound, create_internal_transfer-IsSound}

module _ (env : Env) (u : String) (request : RecoverRequest) (w : World) where
  pub recover-known :
      (recovery : RecoveryRecord)
      → get_recovery w.db request.recovery_id ≡ some recovery
      → Either (recover env u request w).1.db w.db (
          tables_after
            (create_internal_transfer env.now env.transfer_id recovery.user_pk u
              (Ledger.user_balance w.db recovery.user_pk)
              0
              recovery.id
              "Recovery"
              w.db)
            w.db)
  unfolding recover push_events
  recover-known recovery e = ground arith

  pub recover-unknown :
      get_recovery w.db request.recovery_id ≡ none → (recover env u request w).1.db ≡ w.db
  unfolding recover
  recover-unknown e = ground arith

  pub recover-IsSound : IsSound w.db → Fits w.db → IsSound (recover env u request w).1.db
  recover-IsSound sound fits = elim (Option-cases (get_recovery w.db request.recovery_id)) [
    | inl e ↦ rw (recover-unknown e) sound
    | inr (recovery, e) ↦
        let from = recovery.user_pk in
        Either-keeps IsSound (recover-known recovery e) sound (
          create_internal_transfer-IsSound env.now env.transfer_id from
            (Ledger.user_balance w.db from) 0 w.db sound
            (omega (
              arith,
              user_balance_lem w.db from (fits from) (sound.solvent from),
              sound.solvent from,
            ))
            u recovery.id "Recovery")
  ]

-- ===== src/Rpc/Effects/Recovered.antt =====
-- What a recovery moves.
use puncture.Common.{
  ℕ, ◌+◌, ◌^◌, ◌≤◌, ◌<◌, String, ◌≡◌, ◌≢◌, some, arith, ◌==◌, eq_iff, eq_refl, if◌then◌else◌,
}
use puncture.Common.Outcome.{ok}
use puncture.Models.{RecoveryRecord}
use puncture.ClientCore.{RecoverRequest}
use puncture.Ledger.{user_balance}
use puncture.Ledger.Balance.{received, spent, received-append, spent-append, user_balance_lem}
use puncture.ClientDb.{get_recovery, transfer_send, transfer_receive, create_internal_transfer}
use puncture.Handler.{Env, World}
use puncture.Rpc.Actions.{push_events}
use puncture.Rpc.Account.{recover}

module _ (env : Env) (u : String) (request : RecoverRequest) (w : World) (recovery : RecoveryRecord)
    (moved : ℕ) (known : get_recovery w.db request.recovery_id ≡ some recovery)
    (done : (recover env u request w).0 ≡ ok moved)
    (fits : received recovery.user_pk w.db.receives < 2 ^ 63)
    (covered : spent recovery.user_pk w.db.sends ≤ received recovery.user_pk w.db.receives) where
  recover-moves :
      let db' = (recover env u request w).1.db in
      (recovery.user_pk ≢ u)
      × (0 < moved)
      × (moved ≡ user_balance w.db recovery.user_pk)
      × ((v : String)
          → (spent v db'.sends ≡ spent v w.db.sends + (if recovery.user_pk == v then moved else 0))
            × (received v db'.receives ≡ received v w.db.receives + (if u == v then moved else 0)))
  unfolding recover push_events create_internal_transfer
  recover-moves = (
    λ same. ground (arith, eq_iff u recovery.user_pk),
    ground arith,
    ground arith,
    λ v. ground (
      arith,
      spent-append v
          (transfer_send env.now env.transfer_id recovery.user_pk
            (user_balance w.db recovery.user_pk) 0 recovery.id "Recovery")
          w.db.sends,
      received-append v
          (transfer_receive env.now env.transfer_id u (user_balance w.db recovery.user_pk)
            recovery.id "Recovery")
          w.db.receives,
    ),
  )

  -- A successful recovery takes the whole balance of another account, which is not zero: that
  -- account is left with nothing, the caller has received that much more, and nobody's spending
  -- or receipts change beside these. This holds where the account's receipts cover its spending
  -- and stay below 2 ^ 63.
  pub recover_empties :
      let db' = (recover env u request w).1.db in
      (user_balance db' recovery.user_pk ≡ 0)
      × (0 < moved)
      × (moved ≡ user_balance w.db recovery.user_pk)
      × (received u db'.receives ≡ received u w.db.receives + moved)
      × ((v : String)
          → v ≢ u
          → v ≢ recovery.user_pk
          → (spent v db'.sends ≡ spent v w.db.sends)
            × (received v db'.receives ≡ received v w.db.receives))
  recover_empties =
      let (other, some_moved, whole, change) = recover-moves in
      let from = recovery.user_pk in
      (
        ground (
          arith,
          change from,
          eq_refl from,
          eq_iff u from,
          user_balance_lem w.db from fits covered,
          user_balance_lem (recover env u request w).1.db from,
        ),
        some_moved,
        whole,
        ground (arith, change u, eq_refl u),
        λ v not_u not_from. ground (arith, change v, eq_iff u v, eq_iff from v),
      )

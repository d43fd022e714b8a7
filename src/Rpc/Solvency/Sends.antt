-- ===== src/Rpc/Solvency/Sends.antt =====
-- The payments of invoices and offers keep the ledger sound, however they end.
use puncture.Common.{arith, String}
use puncture.Rpc.Keeps.{bolt11_send-keeps, bolt12_send-keeps}
use puncture.ClientCore.{Bolt11SendRequest, Bolt12SendRequest}
use puncture.Ledger.Balance.{Fits}
use puncture.Handler.{Env, World}
use puncture.Rpc.Send.{bolt11_send, bolt12_send}
use puncture.Rpc.Solvency.{
  IsSane, IsSound, check_send-covers, create_internal_transfer-IsSound, create_send_payment-IsSound,
}

module _ (env : Env) (u : String) (w : World) (sound : IsSound w.db) (sane : IsSane env.args)
    (fits : Fits w.db) where
  pub bolt11_send-IsSound :
      (request : Bolt11SendRequest) → IsSound (bolt11_send env u request w).1.db
  bolt11_send-IsSound request = bolt11_send-keeps IsSound env u w sound request λ fee e.
      let c =
        check_send-covers env.args u request.amount_msat w.db (fits u) (sound.solvent u) sane e in
      (
        create_internal_transfer-IsSound env.now env.transfer_id u request.amount_msat 1000 w.db
            sound (omega (arith, sane.fee_low)),
        λ id description pr.
            create_send_payment-IsSound env.now id u request.amount_msat fee w.db sound c.0
              description pr "pending",
      )

  pub bolt12_send-IsSound :
      (request : Bolt12SendRequest) → IsSound (bolt12_send env u request w).1.db
  bolt12_send-IsSound request = bolt12_send-keeps IsSound env u w sound request λ fee e.
      let c =
        check_send-covers env.args u request.amount_msat w.db (fits u) (sound.solvent u) sane e in
      (
        create_internal_transfer-IsSound env.now env.transfer_id u request.amount_msat 1000 w.db
            sound (omega (arith, sane.fee_low)),
        λ id description pr.
            create_send_payment-IsSound env.now id u request.amount_msat fee w.db sound c.0
              description pr "pending",
      )

-- ===== src/Rpc/Solvency/Onchain.antt =====
-- `onchain_send` keeps the ledger sound, however it ends.
use puncture.Rpc.Keeps.Onchain.{short, onchain_send-keeps}
use puncture.Common.{◌+◌, ◌≤◌, arith, String, ◌≡◌, none, false}
use puncture.Common.Words.{mul64}
use puncture.ClientCore.{OnchainSendRequest}
use puncture.Ledger.Balance.{received, spent, Fits, user_balance_lem}
use puncture.Handler.{Env, World}
use puncture.Rpc.Send.{onchain_send}
use puncture.Rpc.Solvency.{IsSane, IsSound, create_send_payment-IsSound}

module _ (env : Env) (u : String) (w : World) (sound : IsSound w.db) (sane : IsSane env.args)
    (fits : Fits w.db) where
  pub onchain-covers :
      (request : OnchainSendRequest)
      → short env u w request ≡ false
      → spent u w.db.sends + mul64 request.amount_sats 1000 + env.args.onchain_base_fee_msat
        ≤ received u w.db.receives
  onchain-covers request h = ground (
    arith,
    user_balance_lem w.db u (fits u) (sound.solvent u),
    sane.onchain_high,
    fits u,
    sound.solvent u,
  )

  pub onchain_send-IsSound :
      (request : OnchainSendRequest) → IsSound (onchain_send env u request w).1.db
  onchain_send-IsSound request =
      onchain_send-keeps env u w IsSound sound request λ rich txid address.
        create_send_payment-IsSound env.now txid u (mul64 request.amount_sats 1000)
          env.args.onchain_base_fee_msat w.db sound (onchain-covers request rich) "" address
          "successful" none

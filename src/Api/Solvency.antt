-- ===== src/Api/Solvency.antt =====
-- No request of any client, known or not, overdraws a user.
use puncture.Common.{String, Bool}
use puncture.Ledger.Balance.{Fits}
use puncture.Handler.{Env, World}
use puncture.Rpc.Solvency.{IsSane, IsSound}
use puncture.Rpc.Solvency.Sends.{bolt11_send-IsSound, bolt12_send-IsSound}
use puncture.Rpc.Solvency.Onchain.{onchain_send-IsSound}
use puncture.Rpc.Solvency.Recovery.{recover-IsSound}
use puncture.Rpc.Solvency.Others.{
  SameLedger-IsSound, register-SameLedger, set_recovery_name-SameLedger, bolt11_receive-SameLedger,
  bolt12_receive-SameLedger,
}
use puncture.Rpc.Account.{register, set_recovery_name, recover}
use puncture.Rpc.Receive.{bolt11_receive, bolt12_receive}
use puncture.Rpc.Send.{bolt11_send, bolt12_send, onchain_send}
use puncture.Api.Messages.{Codec, ClientRpcRequest}
use puncture.Api.Dispatch.{handle_request_rule, respond_rule}
use puncture.Api.{handle_request}

module _ (codec : Codec) (env : Env) (u : String) (request : ClientRpcRequest) (w : World) where
  abbrev After : Bool → World → Type 0
  After done w' = IsSound w'.db

  -- Whatever a client sends, and however it ends, the ledger stays sound.
  pub handle_request-IsSound :
      IsSane env.args
      → Fits w.db
      → IsSound w.db
      → IsSound (handle_request codec env u request w).1.db
  handle_request-IsSound sane fits sound =
      handle_request_rule (λ ended. IsSound ended.1.db) w codec env u request (λ e. sound)
        (λ r.
          respond_rule After _ (register env u r) w
            (SameLedger-IsSound _ w.db (register-SameLedger env u w r) sound))
        (λ r.
          respond_rule After _ (bolt11_receive env u r) w
            (SameLedger-IsSound _ w.db (bolt11_receive-SameLedger env u w r) sound))
        (respond_rule After _ (bolt12_receive env u) w
          (SameLedger-IsSound _ w.db (bolt12_receive-SameLedger env u w) sound))
        (λ r.
          respond_rule After _ (bolt11_send env u r) w
            (bolt11_send-IsSound env u w sound sane fits r))
        (λ r.
          respond_rule After _ (bolt12_send env u r) w
            (bolt12_send-IsSound env u w sound sane fits r))
        (λ r.
          respond_rule After _ (onchain_send env u r) w
            (onchain_send-IsSound env u w sound sane fits r))
        (λ r.
          respond_rule After _ (set_recovery_name env u r) w
            (SameLedger-IsSound _ w.db (set_recovery_name-SameLedger env u w r) sound))
        (λ _ r _. respond_rule After _ (recover env u r) w (recover-IsSound env u r w sound fits))

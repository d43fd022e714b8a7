-- ===== src/Api/Atomic.antt =====
-- A request that fails has changed no table.
use puncture.Common.{◌≢◌, eq_iff, String, Bool, false, ◌≡◌, refl, arith}
use puncture.Common.Outcome.{is_ok}
use puncture.ClientCore.{
  RegisterRequest, Bolt11ReceiveRequest, Bolt11SendRequest, Bolt12SendRequest, OnchainSendRequest,
  SetRecoveryNameRequest, RecoverRequest,
}
use puncture.ClientDb
use puncture.ClientDb.{create_internal_transfer, create_send_payment, create_invoice, create_offer}
use puncture.Handler.{Env, World, M}
use puncture.Rpc.Actions.{push_events}
use puncture.Rpc.Account.{register, set_recovery_name, recover}
use puncture.Rpc.Receive.{bolt11_receive, bolt12_receive}
use puncture.Rpc.Send.{
  pay_user, bolt11_send_to, bolt11_send, bolt12_send_to, bolt12_send, onchain_send,
}
use puncture.Api.Messages.{Codec, ClientRpcRequest}
use puncture.Api.Dispatch.{handle_request_rule, respond_rule}
use puncture.Api.{handle_request}

module _ (w : World) where
  -- Nothing is changed unless the call succeeded.
  abbrev pub Unchanged : Bool → World → Type 0
  Unchanged done w' = done ≡ false → w'.db ≡ w.db

  abbrev Atomic : {A : Type 0} → M A → Type 0
  Atomic m = Unchanged (is_ok (m w).0) (m w).1

  module _ (env : Env) (u : String) where
    register-Atomic : (r : RegisterRequest) → Atomic (register env u r)
    unfolding register
    register-Atomic r = ground arith

    bolt11_receive-Atomic : (r : Bolt11ReceiveRequest) → Atomic (bolt11_receive env u r)
    unfolding bolt11_receive create_invoice
    bolt11_receive-Atomic r = ground arith

    bolt12_receive-Atomic : Atomic (bolt12_receive env u)
    unfolding bolt12_receive create_offer
    bolt12_receive-Atomic = ground arith

    set_recovery_name-Atomic : (r : SetRecoveryNameRequest) → Atomic (set_recovery_name env u r)
    unfolding set_recovery_name
    set_recovery_name-Atomic r = ground arith

    recover-Atomic : (r : RecoverRequest) → Atomic (recover env u r)
    unfolding recover push_events
    recover-Atomic r = ground arith

    onchain_send-Atomic : (r : OnchainSendRequest) → Atomic (onchain_send env u r)
    unfolding onchain_send push_events
    onchain_send-Atomic r = ground arith

    bolt11_send-Atomic : (r : Bolt11SendRequest) → Atomic (bolt11_send env u r)
    unfolding bolt11_send bolt11_send_to pay_user push_events
    bolt11_send-Atomic r = ground arith

    bolt12_send-Atomic : (r : Bolt12SendRequest) → Atomic (bolt12_send env u r)
    unfolding bolt12_send bolt12_send_to pay_user push_events
    bolt12_send-Atomic r = ground arith

module _ (codec : Codec) (env : Env) (u : String) (request : ClientRpcRequest) (w : World) where
  -- A request that does not end in a response, but in an error or a panic, leaves every table as
  -- it was.
  pub handle_request_atomic :
      is_ok (handle_request codec env u request w).0 ≡ false
      → (handle_request codec env u request w).1.db ≡ w.db
  handle_request_atomic =
      handle_request_rule (λ ended. Unchanged w (is_ok ended.0) ended.1) w codec env u request
        (λ e _. refl)
        (λ r. respond_rule (Unchanged w) _ (register env u r) w (register-Atomic w env u r))
        (λ r.
          respond_rule (Unchanged w) _ (bolt11_receive env u r) w (bolt11_receive-Atomic w env u r))
        (respond_rule (Unchanged w) _ (bolt12_receive env u) w (bolt12_receive-Atomic w env u))
        (λ r. respond_rule (Unchanged w) _ (bolt11_send env u r) w (bolt11_send-Atomic w env u r))
        (λ r. respond_rule (Unchanged w) _ (bolt12_send env u r) w (bolt12_send-Atomic w env u r))
        (λ r. respond_rule (Unchanged w) _ (onchain_send env u r) w (onchain_send-Atomic w env u r))
        (λ r.
          respond_rule (Unchanged w) _ (set_recovery_name env u r) w
            (set_recovery_name-Atomic w env u r))
        (λ _ r _. respond_rule (Unchanged w) _ (recover env u r) w (recover-Atomic w env u r))

  -- A user who is not registered can call `register` alone: any other request ends in an error,
  -- and changes no table, sends no event and makes no call to the node.
  pub handle_request_unregistered :
      ClientDb.user_exists w.db u ≡ false
      → request.method ≢ "register"
      → (is_ok (handle_request codec env u request w).0 ≡ false)
        × ((handle_request codec env u request w).1 ≡ w)
  unfolding handle_request
  handle_request_unregistered unknown other = ground (arith, eq_iff request.method "register")

-- ===== src/Api/Dispatch.antt =====
-- What holds after each handler, and after a request that reaches none, holds after every request.
use puncture.Common.{
  String, Bool, true, false, ◌≡◌, refl, not, ◌&&◌, ◌==◌, if◌then◌else◌, inl, inr, Bool-cases,
  eq_iff,
}
use puncture.Common.Outcome.{Outcome, ok, err, panic, is_ok}
use puncture.ClientCore.{
  RegisterRequest, Bolt11ReceiveRequest, Bolt11SendRequest, Bolt12SendRequest, OnchainSendRequest,
  SetRecoveryNameRequest, RecoverRequest,
}
use puncture.ClientDb
use puncture.Node.{Answer}
use puncture.Handler.{Env, World, M, continue}
use puncture.Rpc.Account.{register, set_recovery_name, recover}
use puncture.Rpc.Receive.{bolt11_receive, bolt12_receive}
use puncture.Rpc.Send.{bolt11_send, bolt12_send, onchain_send}
use puncture.Api.Messages.{Codec, ClientRpcRequest, Response}
use puncture.Api.{decoded, client_method, respond, handle_request}

abbrev pub Ended : Type 0 → Type 0
Ended A = Outcome A × World

module _ (Q : Ended Response → Type 0) (w : World) where
  if_rule :
      (c : Bool) (m n : M Response) → (c ≡ true → Q (m w)) → Q (n w) → Q ((if c then m else n) w)
  if_rule true m n qm qn = qm refl
  if_rule false m n qm qn = qn

  decoded_rule :
      {R : Type 0} (params : Answer R) (handler : R → M Response)
      → ((e : String) → Q (err e, w))
      → ((r : R) → params ≡ Answer.granted r → Q (handler r w))
      → Q (continue (decoded params) handler w)
  decoded_rule (Answer.granted r) handler fail step = step r refl
  decoded_rule (Answer.refused e) handler fail step = fail _

  client_method_rule :
      {R : Type 0} (auth : Bool) (user_id : String) (params : Answer R) (handler : R → M Response)
      → ((e : String) → Q (err e, w))
      → ((auth && not (ClientDb.user_exists w.db user_id)) ≡ false
          → (r : R) → params ≡ Answer.granted r
          → Q (handler r w))
      → Q (client_method auth user_id params handler w)
  client_method_rule auth user_id params handler fail step =
      elim (Bool-cases (auth && not (ClientDb.user_exists w.db user_id))) [
        | inl out ↦ rw out (fail "Method requires a registered user")
        | inr within ↦ rw within (decoded_rule params handler fail (step within))
      ]

  module _ (codec : Codec) (env : Env) (u : String) (request : ClientRpcRequest)
      (fail : (e : String) → Q (err e, w))
      (registers : (r : RegisterRequest) → Q (respond Response.registered (register env u r) w))
      (invoices : (r : Bolt11ReceiveRequest)
        → Q (respond Response.invoice (bolt11_receive env u r) w))
      (offers : Q (respond Response.offer (bolt12_receive env u) w))
      (pays_invoice : (r : Bolt11SendRequest)
        → Q (respond (λ _. Response.done) (bolt11_send env u r) w))
      (pays_offer : (r : Bolt12SendRequest)
        → Q (respond (λ _. Response.done) (bolt12_send env u r) w))
      (pays_onchain : (r : OnchainSendRequest) → Q (respond Response.txid (onchain_send env u r) w))
      (renames : (r : SetRecoveryNameRequest)
        → Q (respond (λ _. Response.done) (set_recovery_name env u r) w))
      (recovers : request.method ≡ "recover"
        → (r : RecoverRequest) → codec.recover request.request ≡ Answer.granted r
        → Q (respond Response.recovered (recover env u r) w)) where
    pub handle_request_rule : Q (handle_request codec env u request w)
    unfolding handle_request
    handle_request_rule =
        if_rule (request.method == "register") _ _
          (λ _. client_method_rule false u (codec.register body) _ fail (λ _ r _. registers r))
          (if_rule (request.method == "bolt11_receive") _ _
            (λ _.
              client_method_rule true u (codec.bolt11_receive body) _ fail (λ _ r _. invoices r))
            (if_rule (request.method == "bolt12_receive") _ _
              (λ _. client_method_rule true u (codec.empty body) _ fail (λ _ _ _. offers))
              (if_rule (request.method == "bolt11_send") _ _
                (λ _.
                  client_method_rule true u (codec.bolt11_send body) _ fail
                    (λ _ r _. pays_invoice r))
                (if_rule (request.method == "bolt12_send") _ _
                  (λ _.
                    client_method_rule true u (codec.bolt12_send body) _ fail
                      (λ _ r _. pays_offer r))
                  (if_rule (request.method == "onchain_send") _ _
                    (λ _.
                      client_method_rule true u (codec.onchain_send body) _ fail
                        (λ _ r _. pays_onchain r))
                    (if_rule (request.method == "set_recovery_name") _ _
                      (λ _.
                        client_method_rule true u (codec.set_recovery_name body) _ fail
                          (λ _ r _. renames r))
                      (if_rule (request.method == "recover") _ _
                        (λ named.
                          client_method_rule true u (codec.recover body) _ fail (λ _ r read.
                            recovers ((eq_iff request.method "recover").0 named) r read))
                        (fail _))))))))
      where
        body : String
        body = request.request

-- A response keeps how the handler ended, and its world.
pub respond_rule :
    {A : Type 0} (Q : Bool → World → Type 0) (f : A → Response) (m : M A) (w : World)
    → Q (is_ok (m w).0) (m w).1
    → Q (is_ok (respond f m w).0) (respond f m w).1
respond_rule {A} Q f m w h = go (m w).0 (m w).1 h
  where
    go :
        (r : Outcome A) (v : World)
        → Q (is_ok r) v
        → Q
            (is_ok (continue r (λ a v'. (ok (f a), v')) v).0)
            (continue r (λ a v'. (ok (f a), v')) v).1
    go (ok a) v h = h
    go (err e) v h = h
    go (panic e) v h = h

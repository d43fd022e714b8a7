-- ===== src/Api.antt =====
-- puncture-daemon/src/client/mod.rs: the method of a request, its authentication and decoding.
pub mod Messages
pub mod Connections
pub mod Dispatch
pub mod Atomic
pub mod Solvency
pub mod Pending
pub mod Drive
use puncture.Common.{String, Bool, true, false, not, ◌&&◌, ◌==◌, if◌then◌else◌}
use puncture.Common.Outcome.{Outcome, ok, err, fail_if}
use puncture.Common.Text.{◌<>◌}
use puncture.ClientDb
use puncture.Node.{Answer}
use puncture.Handler.{Env, M, ◌>>=◌, ◌>>◌, pure, lift, reads}
use puncture.Rpc.Account.{register, set_recovery_name, recover}
use puncture.Rpc.Receive.{bolt11_receive, bolt12_receive}
use puncture.Rpc.Send.{bolt11_send, bolt12_send, onchain_send}
use puncture.Api.Messages.{Codec, ClientRpcRequest, Response}

-- `serde_json::from_value(params)`
abbrev pub decoded : {R : Type 0} → Answer R → Outcome R
decoded (Answer.granted request) = ok request
decoded (Answer.refused e) = err ("Failed to deserialize request: " <> e)

-- The macro `client_method!`: `auth` says whether the method wants a registered user.
abbrev pub client_method : {R : Type 0} → Bool → String → Answer R → (R → M Response) → M Response
client_method auth user_id params handler = do
  exists ← reads (λ db. ok (ClientDb.user_exists db user_id))
  lift (fail_if (auth && not exists) "Method requires a registered user")
  request ← lift (decoded params)
  handler request

-- `rpc::$func(…).await.map(…)`
abbrev pub respond : {A : Type 0} → (A → Response) → M A → M Response
respond f m = do a ← m; pure (f a)

-- The match of `handle_request` on the method's name.
unfoldable pub handle_request : Codec → Env → String → ClientRpcRequest → M Response
handle_request codec env user_id request =
    if request.method == "register"
    then client_method false user_id (codec.register request.request)
        (λ r. respond Response.registered (register env user_id r))
    else if request.method == "bolt11_receive"
    then client_method true user_id (codec.bolt11_receive request.request)
        (λ r. respond Response.invoice (bolt11_receive env user_id r))
    else if request.method == "bolt12_receive"
    then client_method true user_id (codec.empty request.request)
        (λ r. respond Response.offer (bolt12_receive env user_id))
    else if request.method == "bolt11_send"
    then client_method true user_id (codec.bolt11_send request.request)
        (λ r. respond (λ _. Response.done) (bolt11_send env user_id r))
    else if request.method == "bolt12_send"
    then client_method true user_id (codec.bolt12_send request.request)
        (λ r. respond (λ _. Response.done) (bolt12_send env user_id r))
    else if request.method == "onchain_send"
    then client_method true user_id (codec.onchain_send request.request)
        (λ r. respond Response.txid (onchain_send env user_id r))
    else if request.method == "set_recovery_name"
    then client_method true user_id (codec.set_recovery_name request.request)
        (λ r. respond (λ _. Response.done) (set_recovery_name env user_id r))
    else if request.method == "recover"
    then client_method true user_id (codec.recover request.request)
        (λ r. respond Response.recovered (recover env user_id r))
    else lift (err ("Method '" <> request.method <> "' not found"))

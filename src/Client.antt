-- ===== src/Client.antt =====
-- puncture-client/src/lib.rs: the calls of a client, each of which is one request to the daemon.
-- A response crosses the wire as a text, which is read at the type that the call expects of it; both
-- sides of serde_json are parameters.
pub mod Store
pub mod Calls
pub mod Reaches
pub mod Registration
pub mod Reconnect
pub mod Events
use puncture.Common.{ℕ, String, Option, none, some, List}
use puncture.Common.Outcome.{Outcome, ok, err, panic}
use puncture.ClientCore.{
  Bolt11Invoice, Offer, RegisterRequest, RegisterResponse, Bolt11ReceiveRequest, Bolt11SendRequest,
  Bolt12SendRequest, OnchainSendRequest, SetRecoveryNameRequest, RecoverRequest,
}
use puncture.Node.{Answer}
use puncture.Handler.{World, M}
use puncture.Codes.{InviteCode, RecoveryCode}
use puncture.Api.Messages.{ClientRpcRequest, Response}
use puncture.Client.Store.{DaemonRecord, save_daemon}

-- `serde_json::to_vec` at the types of the requests.
pub record Writer : Type 0 where
  pub register : RegisterRequest → String
  pub bolt11_receive : Bolt11ReceiveRequest → String
  pub empty : String
  pub bolt11_send : Bolt11SendRequest → String
  pub bolt12_send : Bolt12SendRequest → String
  pub onchain_send : OnchainSendRequest → String
  pub set_recovery_name : SetRecoveryNameRequest → String
  pub recover : RecoverRequest → String

-- `serde_json::from_slice` at `Result<T, String>` for the types of the responses; a struct with one
-- field is this field.
pub record Reader : Type 0 where
  pub registered : String → Option (Answer RegisterResponse)
  pub invoice : String → Option (Answer Bolt11Invoice)
  pub offer : String → Option (Answer String)
  pub done : String → Option (Answer (Unit {0}))
  pub txid : String → Option (Answer String)
  pub recovered : String → Option (Answer ℕ)

-- What the streams of one request do.
pub data Delivery : Type 0 where
  request_lost : Delivery
  response_lost : Delivery
  delivered : Delivery

-- What the daemon writes: nothing after a panic.
abbrev pub written : (Answer Response → String) → Outcome Response → Option String
written to_vec (ok response) = some (to_vec (Answer.granted response))
written to_vec (err e) = some (to_vec (Answer.refused e))
written to_vec (panic e) = none

module _ (to_vec : Answer Response → String) (daemon : ClientRpcRequest → M Response) {T : Type 0}
    (from_slice : String → Option (Answer T)) where
  -- `request_json`: `none` is an error of the transport or of the decoding.
  unfoldable pub request_json : Delivery → String → String → World → Option (Answer T) × World
  request_json Delivery.request_lost method request w = (none, w)
  request_json Delivery.response_lost method request w =
      let (r, w') = daemon (record { method = method; request = request }) w in (none, w')
  request_json Delivery.delivered method request w =
      let (r, w') = daemon (record { method = method; request = request }) w in
      (elim (written to_vec r) [ none ↦ none | some response ↦ from_slice response ], w')

-- `map_err(|_| failure)?`
abbrev pub or_failed : {T : Type 0} → String → Option (Answer T) → Answer T
or_failed failure none = Answer.refused failure
or_failed failure (some answer) = answer

-- The end of `PunctureClient::register`: the daemon is saved.
abbrev pub registered :
    ℕ
    → InviteCode
    → Answer RegisterResponse
    → List DaemonRecord
    → Answer (Unit {0}) × List DaemonRecord
registered now invite (Answer.refused e) daemons = (Answer.refused e, daemons)
registered now invite (Answer.granted response) daemons =
    (Answer.granted tt, save_daemon now invite.node_id response daemons)

-- The channel of the connection holds one or not; `daemon` answers this user.
-- `to_vec` is `serde_json::to_vec` for the response in the daemon.
module _ (writer : Writer) (reader : Reader) (to_vec : Answer Response → String)
    (daemon : ClientRpcRequest → M Response) where
  -- `PunctureConnection::request`
  unfoldable pub request :
      {T : Type 0}
      → Option Delivery
      → String
      → String
      → (String → Option (Answer T))
      → World
      → Answer T × World
  unfolding request_json
  request none method body read w = (Answer.refused "Disconnected", w)
  request (some delivery) method body read w =
      let (r, w') = request_json to_vec daemon read delivery method body w in
      (or_failed "Request failed" r, w')

  module _ (receiver : Option Delivery) where
    unfoldable pub bolt11_receive : ℕ → String → World → Answer Bolt11Invoice × World
    bolt11_receive amount_msat description =
        request receiver "bolt11_receive"
          (writer.bolt11_receive (record { amount_msat = amount_msat; description = description }))
          reader.invoice

    unfoldable pub bolt11_send :
        Bolt11Invoice → ℕ → Option String → World → Answer (Unit {0}) × World
    bolt11_send invoice amount_msat ln_address =
        request receiver "bolt11_send"
          (writer.bolt11_send
            (record { invoice = invoice; amount_msat = amount_msat; ln_address = ln_address }))
          reader.done

    unfoldable pub bolt12_receive : World → Answer String × World
    bolt12_receive = request receiver "bolt12_receive" writer.empty reader.offer

    unfoldable pub bolt12_send : Offer → ℕ → World → Answer (Unit {0}) × World
    bolt12_send offer amount_msat =
        request receiver "bolt12_send"
          (writer.bolt12_send (record { offer = offer.text; amount_msat = amount_msat }))
          reader.done

    unfoldable pub onchain_send : String → ℕ → World → Answer String × World
    onchain_send address amount_sats =
        request receiver "onchain_send"
          (writer.onchain_send (record { address = address; amount_sats = amount_sats }))
          reader.txid

    unfoldable pub set_recovery_name : Option String → World → Answer (Unit {0}) × World
    set_recovery_name recovery_name =
        request receiver "set_recovery_name"
          (writer.set_recovery_name (record { recovery_name = recovery_name })) reader.done

    unfoldable pub recover : RecoveryCode → World → Answer ℕ × World
    recover recovery_code =
        request receiver "recover" (writer.recover (record { recovery_id = recovery_code.id }))
          reader.recovered

  -- `PunctureClient::register`: the store of the client and the daemon.
  unfoldable pub register :
      ℕ
      → Option Delivery
      → InviteCode
      → List DaemonRecord
      → World
      → (Answer (Unit {0}) × List DaemonRecord) × World
  unfolding request_json
  register now none invite daemons w = ((Answer.refused "Failed to connect", daemons), w)
  register now (some delivery) invite daemons w =
      let (r, w') =
        request_json to_vec daemon reader.registered delivery "register"
          (writer.register (record { invite_id = invite.id })) w in
      (registered now invite (or_failed "Failed to register" r) daemons, w')

-- ===== src/Client/Reaches.antt =====
-- A call of the client is the call of the daemon's handler: both sides agree on the names of the
-- methods, on the types of their parameters and on the types of what they answer.
use puncture.Common.{ℕ, String, ◌≡◌, refl, true, Option, none, some, arith}
use puncture.Common.Outcome.{Outcome, ok, err, panic}
use puncture.ClientCore.{Bolt11Invoice, Offer}
use puncture.ClientDb
use puncture.Codes.{RecoveryCode}
use puncture.Node.{Answer}
use puncture.Handler.{Env, World, M, continue}
use puncture.Rpc.Receive
use puncture.Rpc.Send
use puncture.Rpc.Account
use puncture.Api.{respond, handle_request}
use puncture.Api.Messages.{Codec, Response}
use puncture.Client.{
  Writer, Reader, Delivery, written, or_failed, request_json, request, bolt11_receive, bolt11_send,
  bolt12_receive, bolt12_send, onchain_send, set_recovery_name, recover,
}
use puncture.Client.Calls.{
  seen, shown, IsReadBack, receive_request, pay_request, offer_request, onchain_request,
  name_request, recover_request, IsSeen, IsAnswered,
}

-- What a client makes of how the daemon ended, where it gets the response.
abbrev received :
    {A : Type 0}
    → (Answer Response → String)
    → (String → Option (Answer A))
    → Outcome Response × World
    → Answer A × World
received to_vec read (o, w) = (
  or_failed "Request failed"
      (elim (written to_vec o) [ none ↦ none | some response ↦ read response ]),
  w,
)

-- A request that reaches a handler is answered as this handler ends.
received_response :
    {A : Type 0} (to_vec : Answer Response → String) (read : String → Option (Answer A))
    (f : A → Response) (m : M A) (w : World) (ended : Outcome Response × World)
    → ended ≡ respond f m w
    → IsSeen to_vec read f (m w).0
    → received to_vec read ended ≡ shown m w
received_response {A} to_vec read f m w ended e h = rw e (go (m w).0 (m w).1 h)
  where
    go :
        (o : Outcome A) (v : World)
        → IsSeen to_vec read f o
        → received to_vec read (continue o (λ a v'. (ok (f a), v')) v) ≡ (seen o, v)
    go (ok a) v h = rw h refl
    go (err e) v h = rw h refl
    go (panic e) v h = refl

module _ (codec : Codec) (writer : Writer) (reader : Reader) (to_vec : Answer Response → String)
    (env : Env) (u : String) (w : World) (amount amount' amount'' sats : ℕ)
    (description address : String) (invoice : Bolt11Invoice) (ln_address name : Option String)
    (offer : Offer) (code : RecoveryCode) where
  -- A client that is connected as a registered user, whose requests are read back by the daemon as they
  -- were written, and which gets its responses and reads back what the handlers return as the daemon
  -- writes it: each of its calls answers what the daemon's handler of the same name returns for that
  -- user and that request, an error for an error and "Request failed" for a panic, and leaves the
  -- daemon as the handler leaves it.
  pub client_calls_daemon :
      ClientDb.user_exists w.db u ≡ true
      → IsReadBack codec writer
          (receive_request amount description)
          (pay_request invoice amount' ln_address)
          (offer_request offer amount'')
          (onchain_request address sats)
          (name_request name)
          (recover_request code)
      → IsAnswered to_vec reader env u w
          (receive_request amount description)
          (pay_request invoice amount' ln_address)
          (offer_request offer amount'')
          (onchain_request address sats)
          (name_request name)
          (recover_request code)
      → let daemon = handle_request codec env u in
        let on : Option Delivery = some Delivery.delivered in
        (bolt11_receive writer reader to_vec daemon on amount description w
          ≡ shown (Receive.bolt11_receive env u (receive_request amount description)) w)
        × (bolt11_send writer reader to_vec daemon on invoice amount' ln_address w
            ≡ shown (Send.bolt11_send env u (pay_request invoice amount' ln_address)) w)
        × (bolt12_receive writer reader to_vec daemon on w ≡ shown (Receive.bolt12_receive env u) w)
        × (bolt12_send writer reader to_vec daemon on offer amount'' w
            ≡ shown (Send.bolt12_send env u (offer_request offer amount'')) w)
        × (onchain_send writer reader to_vec daemon on address sats w
            ≡ shown (Send.onchain_send env u (onchain_request address sats)) w)
        × (set_recovery_name writer reader to_vec daemon on name w
            ≡ shown (Account.set_recovery_name env u (name_request name)) w)
        × (recover writer reader to_vec daemon on code w
            ≡ shown (Account.recover env u (recover_request code)) w)
  unfolding bolt11_receive bolt11_send bolt12_receive bolt12_send onchain_send set_recovery_name
      recover request request_json handle_request
  client_calls_daemon known read answered = (
    received_response to_vec reader.invoice Response.invoice
        (Receive.bolt11_receive env u (receive_request amount description)) w
        (handle_request codec env u
          (record {
            method = "bolt11_receive";
            request = writer.bolt11_receive (receive_request amount description);
          })
          w)
        (ground (arith, read.bolt11_receive)) answered.bolt11_receive,
    received_response to_vec reader.done (λ _. Response.done)
        (Send.bolt11_send env u (pay_request invoice amount' ln_address)) w
        (handle_request codec env u
          (record {
            method = "bolt11_send";
            request = writer.bolt11_send (pay_request invoice amount' ln_address);
          })
          w)
        (ground (arith, read.bolt11_send)) answered.bolt11_send,
    received_response to_vec reader.offer Response.offer (Receive.bolt12_receive env u) w
        (handle_request codec env u (record { method = "bolt12_receive"; request = writer.empty })
          w)
        (ground (arith, read.bolt12_receive)) answered.bolt12_receive,
    received_response to_vec reader.done (λ _. Response.done)
        (Send.bolt12_send env u (offer_request offer amount'')) w
        (handle_request codec env u
          (record {
            method = "bolt12_send";
            request = writer.bolt12_send (offer_request offer amount'');
          })
          w)
        (ground (arith, read.bolt12_send)) answered.bolt12_send,
    received_response to_vec reader.txid Response.txid
        (Send.onchain_send env u (onchain_request address sats)) w
        (handle_request codec env u
          (record {
            method = "onchain_send";
            request = writer.onchain_send (onchain_request address sats);
          })
          w)
        (ground (arith, read.onchain_send)) answered.onchain_send,
    received_response to_vec reader.done (λ _. Response.done)
        (Account.set_recovery_name env u (name_request name)) w
        (handle_request codec env u
          (record {
            method = "set_recovery_name";
            request = writer.set_recovery_name (name_request name);
          })
          w)
        (ground (arith, read.set_recovery_name)) answered.set_recovery_name,
    received_response to_vec reader.recovered Response.recovered
        (Account.recover env u (recover_request code)) w
        (handle_request codec env u
          (record { method = "recover"; request = writer.recover (recover_request code) }) w)
        (ground (arith, read.recover)) answered.recover,
  )

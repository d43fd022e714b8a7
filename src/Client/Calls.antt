-- ===== src/Client/Calls.antt =====
-- The requests of the client's calls, what a caller sees of how a handler ended, and what JSON must read
-- back for a set of calls.
use puncture.Common.{ℕ, String, ◌≡◌, Option, some}
use puncture.Common.Outcome.{Outcome, ok, err, panic}
use puncture.ClientCore.{
  Bolt11Invoice, Offer, Bolt11ReceiveRequest, Bolt11SendRequest, Bolt12SendRequest,
  OnchainSendRequest, SetRecoveryNameRequest, RecoverRequest,
}
use puncture.Codes.{RecoveryCode}
use puncture.Node.{Answer}
use puncture.Handler.{Env, World, M}
use puncture.Rpc.Receive
use puncture.Rpc.Send
use puncture.Rpc.Account
use puncture.Api.Messages.{Codec, Response}
use puncture.Client.{Writer, Reader}

-- What a caller sees of how a handler ended.
abbrev pub seen : {A : Type 0} → Outcome A → Answer A
seen (ok a) = Answer.granted a
seen (err e) = Answer.refused e
seen (panic e) = Answer.refused "Request failed"

abbrev pub shown : {A : Type 0} → M A → World → Answer A × World
shown m w = let (r, w') = m w in (seen r, w')

-- The requests of a set of calls are read back as they were written.
pub record IsReadBack (codec : Codec) (writer : Writer) (a : Bolt11ReceiveRequest)
    (b : Bolt11SendRequest) (c : Bolt12SendRequest) (d : OnchainSendRequest)
    (e : SetRecoveryNameRequest) (f : RecoverRequest) : Type 0 where
  pub bolt11_receive : codec.bolt11_receive (writer.bolt11_receive a) ≡ Answer.granted a
  pub bolt11_send : codec.bolt11_send (writer.bolt11_send b) ≡ Answer.granted b
  pub bolt12_receive : codec.empty writer.empty ≡ Answer.granted tt
  pub bolt12_send : codec.bolt12_send (writer.bolt12_send c) ≡ Answer.granted c
  pub onchain_send : codec.onchain_send (writer.onchain_send d) ≡ Answer.granted d
  pub set_recovery_name : codec.set_recovery_name (writer.set_recovery_name e) ≡ Answer.granted e
  pub recover : codec.recover (writer.recover f) ≡ Answer.granted f

-- The requests of the calls.
abbrev pub receive_request : ℕ → String → Bolt11ReceiveRequest
receive_request amount description = record { amount_msat = amount; description = description }

abbrev pub pay_request : Bolt11Invoice → ℕ → Option String → Bolt11SendRequest
pay_request invoice amount ln_address = record {
  invoice = invoice;
  amount_msat = amount;
  ln_address = ln_address;
}

abbrev pub offer_request : Offer → ℕ → Bolt12SendRequest
offer_request offer amount = record { offer = offer.text; amount_msat = amount }

abbrev pub onchain_request : String → ℕ → OnchainSendRequest
onchain_request address sats = record { address = address; amount_sats = sats }

abbrev pub name_request : Option String → SetRecoveryNameRequest
name_request name = record { recovery_name = name }

abbrev pub recover_request : RecoveryCode → RecoverRequest
recover_request code = record { recovery_id = code.id }

-- What a handler returns, as the response that f makes of it, is read back at the client.
abbrev pub IsSeen :
    {A : Type 0}
    → (Answer Response → String)
    → (String → Option (Answer A))
    → (A → Response)
    → Outcome A
    → Type 0
IsSeen to_vec read f (ok a) = read (to_vec (Answer.granted (f a))) ≡ some (Answer.granted a)
IsSeen to_vec read f (err e) = read (to_vec (Answer.refused e)) ≡ some (Answer.refused e)
IsSeen to_vec read f (panic e) = Unit

-- What the handlers return for a set of requests is read back by the client as the daemon writes it.
pub record IsAnswered (to_vec : Answer Response → String) (reader : Reader) (env : Env) (u : String)
    (w : World) (a : Bolt11ReceiveRequest) (b : Bolt11SendRequest) (c : Bolt12SendRequest)
    (d : OnchainSendRequest) (e : SetRecoveryNameRequest) (f : RecoverRequest) : Type 0 where
  pub bolt11_receive :
      IsSeen to_vec reader.invoice Response.invoice (Receive.bolt11_receive env u a w).0
  pub bolt11_send : IsSeen to_vec reader.done (λ _. Response.done) (Send.bolt11_send env u b w).0
  pub bolt12_receive : IsSeen to_vec reader.offer Response.offer (Receive.bolt12_receive env u w).0
  pub bolt12_send : IsSeen to_vec reader.done (λ _. Response.done) (Send.bolt12_send env u c w).0
  pub onchain_send : IsSeen to_vec reader.txid Response.txid (Send.onchain_send env u d w).0
  pub set_recovery_name :
      IsSeen to_vec reader.done (λ _. Response.done) (Account.set_recovery_name env u e w).0
  pub recover : IsSeen to_vec reader.recovered Response.recovered (Account.recover env u f w).0

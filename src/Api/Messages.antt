-- ===== src/Api/Messages.antt =====
-- The request as it arrives, and its decoding by serde_json, which is a parameter of the model.
use puncture.Common.{ℕ, String}
use puncture.ClientCore.{
  Bolt11Invoice, RegisterRequest, RegisterResponse, Bolt11ReceiveRequest, Bolt11SendRequest,
  Bolt12SendRequest, OnchainSendRequest, SetRecoveryNameRequest, RecoverRequest,
}
use puncture.Node.{Answer}

-- `ClientRpcRequest<Value>`; a value is its JSON text.
pub record ClientRpcRequest : Type 0 where
  pub method : String
  pub request : String

-- `serde_json::from_value` at the type of each method's parameters.
pub record Codec : Type 0 where
  pub register : String → Answer RegisterRequest
  pub bolt11_receive : String → Answer Bolt11ReceiveRequest
  pub empty : String → Answer (Unit {0})
  pub bolt11_send : String → Answer Bolt11SendRequest
  pub bolt12_send : String → Answer Bolt12SendRequest
  pub onchain_send : String → Answer OnchainSendRequest
  pub set_recovery_name : String → Answer SetRecoveryNameRequest
  pub recover : String → Answer RecoverRequest

-- What a method returns, before it is written as JSON.
pub data Response : Type 0 where
  registered : RegisterResponse → Response
  invoice : Bolt11Invoice → Response
  offer : String → Response
  done : Response
  txid : String → Response
  recovered : ℕ → Response

-- ===== src/Command/Handlers.antt =====
-- The handlers of the command line's router as one type, and what each runs.
use puncture.Common.{ℕ, String, List}
use puncture.Common.Outcome.{Outcome, ok, err, panic}
use puncture.Handler.{M, World}
use puncture.Codes.{Encoding}
use puncture.Operator.{Ended, OperatorCall, OperatorNode, Act}
use puncture.Operator.Messages.{
  BalancesResponse, OnchainSendRequest, OnchainDrainRequest, OpenChannelRequest,
  CloseChannelRequest, ChannelInfo, RequestChannelRequest, ConnectPeerRequest, PeerInfo,
}
use puncture.Operator.Cli
use puncture.Operator.Cli.{CliError}
use puncture.Admin
use puncture.Admin.{InviteRequest, RecoverUserRequest, CliResult}
use puncture.Admin.CliDb.{UserInfo}

-- A handler with the request that it was given.
pub data Request : Type 0 where
  ldk_node_id : Request
  ldk_balances : Request
  ldk_onchain_receive : Request
  ldk_onchain_send : OnchainSendRequest → Request
  ldk_onchain_drain : OnchainDrainRequest → Request
  ldk_channel_open : OpenChannelRequest → Request
  ldk_channel_close : CloseChannelRequest → Request
  ldk_channel_list : Request
  ldk_channel_request : RequestChannelRequest → Request
  ldk_peer_connect : ConnectPeerRequest → Request
  ldk_peer_disconnect : String → Request
  ldk_peer_list : Request
  user_invite : InviteRequest → Request
  user_recover : RecoverUserRequest → Request
  user_list : Request

-- What a handler answers with success, before it is written as JSON.
pub data Answered : Type 0 where
  text : String → Answered
  balances : BalancesResponse → Answered
  channels : List ChannelInfo → Answered
  peers : List PeerInfo → Answered
  users : List UserInfo → Answered
  nothing : Answered

-- The answer to a request: a success, an error with its status, or none after a panic.
pub data Reply : Type 0 where
  success : Answered → Reply
  refusal : ℕ → String → Reply
  broken : String → Reply

-- The daemon as the command line reaches it: the ledger and the calls to the node.
pub record ServerState : Type 0 where
  pub world : World
  pub calls : List OperatorCall

-- What one request runs with.
pub record Server : Type 0 where
  pub node : OperatorNode
  pub codec : Encoding
  pub now : ℕ
  pub id : String
  pub node_id : String

abbrev reply_of : {A : Type 0} → (A → Answered) → Ended CliError A → Reply
reply_of f (Ended.done a) = Reply.success (f a)
reply_of f (Ended.failed e) = Reply.refusal e.code e.error
reply_of f (Ended.panicked e) = Reply.broken e

abbrev on_node : {A : Type 0} → (A → Answered) → Act CliError A → ServerState → Reply × ServerState
on_node f act s = let (r, calls) = act s.calls in (reply_of f r, record s { calls = calls })

abbrev reply_to : {A : Type 0} → (A → Answered) → Outcome (CliResult A) → Reply
reply_to f (ok (CliResult.json a)) = Reply.success (f a)
reply_to f (ok (CliResult.cli_error code error)) = Reply.refusal code error
reply_to f (err e) = Reply.broken e
reply_to f (panic e) = Reply.broken e

abbrev on_ledger :
    {A : Type 0} → (A → Answered) → M (CliResult A) → ServerState → Reply × ServerState
on_ledger f m s = let (r, world) = m s.world in (reply_to f r, record s { world = world })

unfoldable pub run : Server → Request → ServerState → Reply × ServerState
run d Request.ldk_node_id = on_node Answered.text (Cli.ldk_node_id d.node)
run d Request.ldk_balances = on_node Answered.balances (Cli.ldk_balances d.node)
run d Request.ldk_onchain_receive = on_node Answered.text (Cli.ldk_onchain_receive d.node)
run d (Request.ldk_onchain_send r) = on_node Answered.text (Cli.ldk_onchain_send d.node r)
run d (Request.ldk_onchain_drain r) = on_node Answered.text (Cli.ldk_onchain_drain d.node r)
run d (Request.ldk_channel_open r) = on_node Answered.text (Cli.ldk_channel_open d.node r)
run d (Request.ldk_channel_close r) =
    on_node (λ _. Answered.nothing) (Cli.ldk_channel_close d.node r)
run d Request.ldk_channel_list = on_node Answered.channels (Cli.ldk_channel_list d.node)
run d (Request.ldk_channel_request r) = on_node Answered.text (Cli.ldk_channel_request d.node r)
run d (Request.ldk_peer_connect r) = on_node (λ _. Answered.nothing) (Cli.ldk_peer_connect d.node r)
run d (Request.ldk_peer_disconnect r) =
    on_node (λ _. Answered.nothing) (Cli.ldk_peer_disconnect d.node r)
run d Request.ldk_peer_list = on_node Answered.peers (Cli.ldk_peer_list d.node)
run d (Request.user_invite r) =
    on_ledger Answered.text (Admin.user_invite d.codec d.now d.id d.node_id r)
run d (Request.user_recover r) =
    on_ledger Answered.text (Admin.user_recover d.codec d.now d.id d.node_id r)
run d Request.user_list = on_ledger Answered.users Admin.user_list

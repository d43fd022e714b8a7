-- ===== src/Command.antt =====
-- The command line from end to end: the match on a command in puncture-cli/src/main.rs, the routes
-- of puncture-cli-core/src/lib.rs, and the router of puncture-daemon/src/cli/mod.rs. HTTP carries a
-- request to the route that it names; serde_json, which writes and reads bodies, is a parameter.
pub mod Routes
pub mod Handlers
pub mod Reaches
use puncture.Common.{ℕ, String, Option, none, some, List, [], ◌∷◌, ◌==◌, if◌then◌else◌}
use puncture.Common.Outcome.{Outcome, ok, err}
use puncture.Common.Text.{◌<>◌, decimal}
use puncture.Operator.Messages.{
  OnchainSendRequest, OnchainDrainRequest, OpenChannelRequest, CloseChannelRequest,
  RequestChannelRequest, ConnectPeerRequest,
}
use puncture.Admin.{InviteRequest, RecoverUserRequest}
use puncture.Command.Routes.{
  route_ldk_node_id, route_ldk_balances, route_ldk_onchain_receive, route_ldk_onchain_send,
  route_ldk_onchain_drain, route_ldk_channel_open, route_ldk_channel_close, route_ldk_channel_list,
  route_ldk_channel_request, route_ldk_peer_connect, route_ldk_peer_disconnect, route_ldk_peer_list,
  route_user_invite, route_user_recover, route_user_list,
}
use puncture.Command.Handlers.{Request, Reply, Answered, ServerState, Server, run}

-- The commands, as they are nested on the command line.
pub data AdminOnchainCommands : Type 0 where
  receive : AdminOnchainCommands
  send : OnchainSendRequest → AdminOnchainCommands
  drain : OnchainDrainRequest → AdminOnchainCommands

pub data AdminChannelCommands : Type 0 where
  opens : OpenChannelRequest → AdminChannelCommands
  close : CloseChannelRequest → AdminChannelCommands
  list : AdminChannelCommands
  request_channel : RequestChannelRequest → AdminChannelCommands

pub data AdminPeerCommands : Type 0 where
  connect : ConnectPeerRequest → AdminPeerCommands
  disconnect : String → AdminPeerCommands
  list : AdminPeerCommands

pub data AdminUserCommands : Type 0 where
  invite : InviteRequest → AdminUserCommands
  recover : RecoverUserRequest → AdminUserCommands
  list : AdminUserCommands

pub data AdminLdkCommands : Type 0 where
  node_id : AdminLdkCommands
  balances : AdminLdkCommands
  onchain : AdminOnchainCommands → AdminLdkCommands
  channel : AdminChannelCommands → AdminLdkCommands
  peer : AdminPeerCommands → AdminLdkCommands

pub data AdminCommands : Type 0 where
  ldk : AdminLdkCommands → AdminCommands
  user : AdminUserCommands → AdminCommands

-- `serde_json::to_value` and axum's `Json` at one type.
pub record Written (A : Type 0) : Type 0 where
  pub write : A → String
  pub read : String → Option A

-- At the types of the bodies. `any_value` reads a `Value`, and writes the body of `()`.
pub record Serde : Type 0 where
  pub any_value : Written (Unit {0})
  pub onchain_send : Written OnchainSendRequest
  pub onchain_drain : Written OnchainDrainRequest
  pub channel_open : Written OpenChannelRequest
  pub channel_close : Written CloseChannelRequest
  pub channel_request : Written RequestChannelRequest
  pub peer_connect : Written ConnectPeerRequest
  pub peer_disconnect : Written String
  pub invite : Written InviteRequest
  pub recover : Written RecoverUserRequest

abbrev read_as : {A : Type 0} → Option A → (A → Request) → Option Request
read_as none f = none
read_as (some a) f = some (f a)

module _ (serde : Serde) where
  -- `main`: the route and the body of the request that a command makes.
  abbrev user_command : AdminUserCommands → String × String
  user_command (AdminUserCommands.invite r) = (route_user_invite, serde.invite.write r)
  user_command (AdminUserCommands.recover r) = (route_user_recover, serde.recover.write r)
  user_command AdminUserCommands.list = (route_user_list, serde.any_value.write tt)

  abbrev onchain_command : AdminOnchainCommands → String × String
  onchain_command AdminOnchainCommands.receive =
      (route_ldk_onchain_receive, serde.any_value.write tt)
  onchain_command (AdminOnchainCommands.send r) =
      (route_ldk_onchain_send, serde.onchain_send.write r)
  onchain_command (AdminOnchainCommands.drain r) =
      (route_ldk_onchain_drain, serde.onchain_drain.write r)

  abbrev channel_command : AdminChannelCommands → String × String
  channel_command (AdminChannelCommands.opens r) =
      (route_ldk_channel_open, serde.channel_open.write r)
  channel_command (AdminChannelCommands.close r) =
      (route_ldk_channel_close, serde.channel_close.write r)
  channel_command AdminChannelCommands.list = (route_ldk_channel_list, serde.any_value.write tt)
  channel_command (AdminChannelCommands.request_channel r) =
      (route_ldk_channel_request, serde.channel_request.write r)

  abbrev peer_command : AdminPeerCommands → String × String
  peer_command (AdminPeerCommands.connect r) = (route_ldk_peer_connect, serde.peer_connect.write r)
  peer_command (AdminPeerCommands.disconnect r) =
      (route_ldk_peer_disconnect, serde.peer_disconnect.write r)
  peer_command AdminPeerCommands.list = (route_ldk_peer_list, serde.any_value.write tt)

  unfoldable pub main_request : AdminCommands → String × String
  main_request (AdminCommands.ldk AdminLdkCommands.node_id) =
      (route_ldk_node_id, serde.any_value.write tt)
  main_request (AdminCommands.ldk AdminLdkCommands.balances) =
      (route_ldk_balances, serde.any_value.write tt)
  main_request (AdminCommands.ldk (AdminLdkCommands.onchain command)) = onchain_command command
  main_request (AdminCommands.ldk (AdminLdkCommands.channel command)) = channel_command command
  main_request (AdminCommands.ldk (AdminLdkCommands.peer command)) = peer_command command
  main_request (AdminCommands.user command) = user_command command

  -- `router`: each route with its handler, which reads the body at its own type, if at all.
  abbrev pub router : List (String × (String → Option Request))
  router =
      (route_ldk_node_id, λ body. some Request.ldk_node_id)
      ∷ (route_ldk_balances, λ body. some Request.ldk_balances)
      ∷ (route_ldk_onchain_receive, λ body. some Request.ldk_onchain_receive)
      ∷ (
        route_ldk_onchain_send,
        λ body. read_as (serde.onchain_send.read body) Request.ldk_onchain_send,
      )
      ∷ (
        route_ldk_onchain_drain,
        λ body. read_as (serde.onchain_drain.read body) Request.ldk_onchain_drain,
      )
      ∷ (
        route_ldk_channel_open,
        λ body. read_as (serde.channel_open.read body) Request.ldk_channel_open,
      )
      ∷ (
        route_ldk_channel_close,
        λ body. read_as (serde.channel_close.read body) Request.ldk_channel_close,
      )
      ∷ (
        route_ldk_channel_list,
        λ body. read_as (serde.any_value.read body) (λ _. Request.ldk_channel_list),
      )
      ∷ (
        route_ldk_channel_request,
        λ body. read_as (serde.channel_request.read body) Request.ldk_channel_request,
      )
      ∷ (
        route_ldk_peer_connect,
        λ body. read_as (serde.peer_connect.read body) Request.ldk_peer_connect,
      )
      ∷ (
        route_ldk_peer_disconnect,
        λ body. read_as (serde.peer_disconnect.read body) Request.ldk_peer_disconnect,
      )
      ∷ (
        route_ldk_peer_list,
        λ body. read_as (serde.any_value.read body) (λ _. Request.ldk_peer_list),
      )
      ∷ (route_user_invite, λ body. read_as (serde.invite.read body) Request.user_invite)
      ∷ (route_user_recover, λ body. read_as (serde.recover.read body) Request.user_recover)
      ∷ (route_user_list, λ body. some Request.user_list)
      ∷ []

-- What axum and hyper add: the texts of their refusals, and a body that carries an answer.
pub record Http : Type 0 where
  pub unknown_route : String
  pub unreadable_body : String
  pub send : Answered → String

abbrev find_route :
    {A : Type 0} → String → List (String × (String → Option A)) → Option (String → Option A)
find_route route [] = none
find_route route ((r, read) ∷ routes) = if route == r then some read else find_route route routes

abbrev handle_body : Http → Server → Option Request → ServerState → Reply × ServerState
handle_body http d none s = (Reply.refusal 422 http.unreadable_body, s)
handle_body http d (some r) s = run d r s

abbrev on_route :
    Http → Server → Option (String → Option Request) → String → ServerState → Reply × ServerState
on_route http d none body s = (Reply.refusal 404 http.unknown_route, s)
on_route http d (some read) body s = handle_body http d (read body) s

-- A request that reaches the server.
unfoldable pub serve : Serde → Http → Server → String × String → ServerState → Reply × ServerState
serve serde http d (route, body) s = on_route http d (find_route route (router serde)) body s

-- `request`: what the command prints, or its error. `pretty` reads a body and prints it indented.
unfoldable pub request : Http → (String → Outcome String) → Reply → Outcome String
request http pretty (Reply.success answer) = pretty (http.send answer)
request http pretty (Reply.refusal code text) =
    err ("API error (" <> (decimal code <> ("): " <> text)))
request http pretty (Reply.broken e) = err "Failed to connect to daemon"

-- A command from end to end.
unfoldable pub main :
    Serde
    → Http
    → (String → Outcome String)
    → Server
    → AdminCommands
    → ServerState
    → Outcome String × ServerState
main serde http pretty d command s =
    let (reply, s') = serve serde http d (main_request serde command) s in
    (request http pretty reply, s')

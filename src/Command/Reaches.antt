-- ===== src/Command/Reaches.antt =====
-- Every command runs its handler: the tables of puncture-cli/src/main.rs and
-- puncture-daemon/src/cli/mod.rs agree on the route and on the type of the body.
use puncture.Common.{◌≡◌, refl, String, some}
use puncture.Common.Outcome.{Outcome}
use puncture.Command.Handlers.{Request, ServerState, Server, run}
use puncture.Command.{
  AdminOnchainCommands, AdminChannelCommands, AdminPeerCommands, AdminUserCommands,
  AdminLdkCommands, AdminCommands, Written, Serde, read_as, Http, handle_body, main_request, serve,
  request, main,
}

-- A value that is written is read as itself.
abbrev pub RoundTrips : {A : Type 0} → Written A → A → Type 0
RoundTrips w a = w.read (w.write a) ≡ some a

-- The body of a command, where its handler reads one, is read back as it was written: what serde
-- documents of the derived `Serialize` and `Deserialize` of one struct.
abbrev pub IsRead : Serde → AdminCommands → Type 0
IsRead serde (AdminCommands.ldk AdminLdkCommands.node_id) = Unit
IsRead serde (AdminCommands.ldk AdminLdkCommands.balances) = Unit
IsRead serde (AdminCommands.ldk (AdminLdkCommands.onchain AdminOnchainCommands.receive)) = Unit
IsRead serde (AdminCommands.ldk (AdminLdkCommands.onchain (AdminOnchainCommands.send r))) =
    RoundTrips serde.onchain_send r
IsRead serde (AdminCommands.ldk (AdminLdkCommands.onchain (AdminOnchainCommands.drain r))) =
    RoundTrips serde.onchain_drain r
IsRead serde (AdminCommands.ldk (AdminLdkCommands.channel (AdminChannelCommands.opens r))) =
    RoundTrips serde.channel_open r
IsRead serde (AdminCommands.ldk (AdminLdkCommands.channel (AdminChannelCommands.close r))) =
    RoundTrips serde.channel_close r
IsRead serde (AdminCommands.ldk (AdminLdkCommands.channel AdminChannelCommands.list)) =
    RoundTrips serde.any_value tt
IsRead serde
      (AdminCommands.ldk (AdminLdkCommands.channel (AdminChannelCommands.request_channel r))) =
    RoundTrips serde.channel_request r
IsRead serde (AdminCommands.ldk (AdminLdkCommands.peer (AdminPeerCommands.connect r))) =
    RoundTrips serde.peer_connect r
IsRead serde (AdminCommands.ldk (AdminLdkCommands.peer (AdminPeerCommands.disconnect r))) =
    RoundTrips serde.peer_disconnect r
IsRead serde (AdminCommands.ldk (AdminLdkCommands.peer AdminPeerCommands.list)) =
    RoundTrips serde.any_value tt
IsRead serde (AdminCommands.user (AdminUserCommands.invite r)) = RoundTrips serde.invite r
IsRead serde (AdminCommands.user (AdminUserCommands.recover r)) = RoundTrips serde.recover r
IsRead serde (AdminCommands.user AdminUserCommands.list) = Unit

-- The handler that each command names.
abbrev pub meant : AdminCommands → Request
meant (AdminCommands.ldk AdminLdkCommands.node_id) = Request.ldk_node_id
meant (AdminCommands.ldk AdminLdkCommands.balances) = Request.ldk_balances
meant (AdminCommands.ldk (AdminLdkCommands.onchain AdminOnchainCommands.receive)) =
    Request.ldk_onchain_receive
meant (AdminCommands.ldk (AdminLdkCommands.onchain (AdminOnchainCommands.send r))) =
    Request.ldk_onchain_send r
meant (AdminCommands.ldk (AdminLdkCommands.onchain (AdminOnchainCommands.drain r))) =
    Request.ldk_onchain_drain r
meant (AdminCommands.ldk (AdminLdkCommands.channel (AdminChannelCommands.opens r))) =
    Request.ldk_channel_open r
meant (AdminCommands.ldk (AdminLdkCommands.channel (AdminChannelCommands.close r))) =
    Request.ldk_channel_close r
meant (AdminCommands.ldk (AdminLdkCommands.channel AdminChannelCommands.list)) =
    Request.ldk_channel_list
meant (AdminCommands.ldk (AdminLdkCommands.channel (AdminChannelCommands.request_channel r))) =
    Request.ldk_channel_request r
meant (AdminCommands.ldk (AdminLdkCommands.peer (AdminPeerCommands.connect r))) =
    Request.ldk_peer_connect r
meant (AdminCommands.ldk (AdminLdkCommands.peer (AdminPeerCommands.disconnect r))) =
    Request.ldk_peer_disconnect r
meant (AdminCommands.ldk (AdminLdkCommands.peer AdminPeerCommands.list)) = Request.ldk_peer_list
meant (AdminCommands.user (AdminUserCommands.invite r)) = Request.user_invite r
meant (AdminCommands.user (AdminUserCommands.recover r)) = Request.user_recover r
meant (AdminCommands.user AdminUserCommands.list) = Request.user_list

module _ (http : Http) (d : Server) (s : ServerState) where
  handle_read :
      {A : Type 0} (w : Written A) (f : A → Request) (a : A)
      → RoundTrips w a
      → handle_body http d (read_as (w.read (w.write a)) f) s ≡ run d (f a) s
  handle_read w f a faithful = rw faithful refl

  serve_lem :
      (serde : Serde) (command : AdminCommands)
      → IsRead serde command
      → serve serde http d (main_request serde command) s ≡ run d (meant command) s
  unfolding serve main_request
  serve_lem w (AdminCommands.ldk AdminLdkCommands.node_id) t = refl
  serve_lem w (AdminCommands.ldk AdminLdkCommands.balances) t = refl
  serve_lem w (AdminCommands.ldk (AdminLdkCommands.onchain AdminOnchainCommands.receive)) t = refl
  serve_lem w (AdminCommands.ldk (AdminLdkCommands.onchain (AdminOnchainCommands.send r))) t =
      handle_read w.onchain_send Request.ldk_onchain_send r t
  serve_lem w (AdminCommands.ldk (AdminLdkCommands.onchain (AdminOnchainCommands.drain r))) t =
      handle_read w.onchain_drain Request.ldk_onchain_drain r t
  serve_lem w (AdminCommands.ldk (AdminLdkCommands.channel (AdminChannelCommands.opens r))) t =
      handle_read w.channel_open Request.ldk_channel_open r t
  serve_lem w (AdminCommands.ldk (AdminLdkCommands.channel (AdminChannelCommands.close r))) t =
      handle_read w.channel_close Request.ldk_channel_close r t
  serve_lem w (AdminCommands.ldk (AdminLdkCommands.channel AdminChannelCommands.list)) t =
      handle_read w.any_value (λ _. Request.ldk_channel_list) tt t
  serve_lem w
        (AdminCommands.ldk (AdminLdkCommands.channel (AdminChannelCommands.request_channel r))) t =
      handle_read w.channel_request Request.ldk_channel_request r t
  serve_lem w (AdminCommands.ldk (AdminLdkCommands.peer (AdminPeerCommands.connect r))) t =
      handle_read w.peer_connect Request.ldk_peer_connect r t
  serve_lem w (AdminCommands.ldk (AdminLdkCommands.peer (AdminPeerCommands.disconnect r))) t =
      handle_read w.peer_disconnect Request.ldk_peer_disconnect r t
  serve_lem w (AdminCommands.ldk (AdminLdkCommands.peer AdminPeerCommands.list)) t =
      handle_read w.any_value (λ _. Request.ldk_peer_list) tt t
  serve_lem w (AdminCommands.user (AdminUserCommands.invite r)) t =
      handle_read w.invite Request.user_invite r t
  serve_lem w (AdminCommands.user (AdminUserCommands.recover r)) t =
      handle_read w.recover Request.user_recover r t
  serve_lem w (AdminCommands.user AdminUserCommands.list) t = refl

  -- Where its body is read back as it was written, each command of the command line reaches the
  -- daemon's handler of that command with the request given on the command line: the daemon ends
  -- in the state that the handler leaves, and the command prints what the handler answered.
  pub command_runs :
      (serde : Serde) (pretty : String → Outcome String) (command : AdminCommands)
      → IsRead serde command
      → main serde http pretty d command s
        ≡ (request http pretty (run d (meant command) s).0, (run d (meant command) s).1)
  unfolding main
  command_runs serde pretty command t = rw (serve_lem serde command t) refl

-- ===== src/Tests/Commands.antt =====
-- A command of the operator, from the command line to the daemon and back.
use puncture.Common.{◌≡◌, refl, some, none, []}
use puncture.Common.Outcome.{ok}
use puncture.Node.{Answer}
use puncture.Command.Handlers.{Request, ServerState, Server, run}
use puncture.Command.{
  Serde, Http, AdminCommands, AdminLdkCommands, AdminChannelCommands, request, main,
}
use puncture.Command.Reaches.{command_runs}
use puncture.Tests.Data.{shop}
use puncture.Tests.Operators.{node, opens}

abbrev serde : Serde
serde = record {
  any_value = record { write = λ _. "null"; read = λ body. some tt };
  onchain_send = record { write = λ _. ""; read = λ body. none };
  onchain_drain = record { write = λ _. ""; read = λ body. none };
  channel_open = record { write = λ _. ""; read = λ body. some opens };
  channel_close = record { write = λ _. ""; read = λ body. none };
  channel_request = record { write = λ _. ""; read = λ body. none };
  peer_connect = record { write = λ _. ""; read = λ body. none };
  peer_disconnect = record { write = λ pk. pk; read = λ body. some body };
  invite = record { write = λ _. ""; read = λ body. none };
  recover = record { write = λ _. ""; read = λ body. none };
}

abbrev http : Http
http = record { unknown_route = ""; unreadable_body = "bad JSON"; send = λ answer. "{}" }

abbrev server : Server
server = record {
  node = node;
  codec = record {
    to_bytes = λ code. [];
    from_bytes = λ bytes. Answer.refused "no";
    to_hex = λ bytes. "00";
    from_hex = λ text. Answer.refused "no";
  };
  now = 5000;
  id = "id1";
  node_id = "02ff";
}

abbrev daemon : ServerState
daemon = record { world = shop; calls = [] }

abbrev opens_channel : AdminCommands
opens_channel = AdminCommands.ldk (AdminLdkCommands.channel (AdminChannelCommands.opens opens))

command_runs_example : main serde http ok server opens_channel daemon ≡ (
  request http ok (run server (Request.ldk_channel_open opens) daemon).0,
  (run server (Request.ldk_channel_open opens) daemon).1,
)
command_runs_example = command_runs http server daemon serde ok opens_channel refl

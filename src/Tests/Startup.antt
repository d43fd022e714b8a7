-- ===== src/Tests/Startup.antt =====
-- The start of a small daemon.
use puncture.Common.{false, not, ◌&&◌, some, none, ◌==◌, ◌≡◌, refl, inr, if◌then◌else◌}
use puncture.Common.Outcome.{is_ok}
use puncture.Node.{Answer}
use puncture.Startup.{Url, StartArgs, SetupAnswers, start_node}
use puncture.Startup.Outcomes.{start_node_iff}
use puncture.Startup.Parts.{is_startable, is_panic, count_connections}

abbrev esplora : Url
esplora = record {
  text = "https://blockstream.info/api";
  host_str = some "blockstream.info";
  port = none;
  username = "";
  password = none;
}

abbrev options : StartArgs
options = record {
  ldk_data_dir = "/ldk";
  bitcoin_network = "bitcoin";
  bitcoind_rpc_url = none;
  esplora_rpc_url = some esplora;
  lsp1_node_id = some "02cc";
  lsp1_socket_address = some "10.0.0.9:9735";
  lsp1_token = none;
  ldk_bind = "0.0.0.0:8081";
}

abbrev accepting : SetupAnswers
accepting = record {
  set_node_alias = Answer.granted tt;
  set_listening_addresses = Answer.granted tt;
  build = Answer.granted tt;
  new_runtime = Answer.granted tt;
  start_with_runtime = Answer.granted tt;
  parse_socket_address = λ text. Answer.granted text;
}

start_node_iff_example :
    (is_ok (start_node accepting false options).0 ≡ is_startable accepting options)
    × (is_panic (start_node accepting false options).0 ≡ false)
    × (count_connections (start_node accepting false options).1 ≡ (
        if is_startable accepting options && (not false && options.bitcoin_network == "bitcoin")
        then 3
        else 0))
start_node_iff_example = start_node_iff accepting false options (inr (esplora, refl, refl))

-- ===== src/Startup.antt =====
-- puncture-daemon/src/main.rs, `main`: how the daemon configures and starts its node, up to the
-- first connections. The node's library, the runtime and the parser of addresses are parameters; the directories,
-- the logs, and the servers that follow are left out.
pub mod Parts
pub mod Outcomes
use puncture.Common.{
  ℕ, String, Bool, true, false, not, ◌&&◌, Option, none, some, List, [], ◌∷◌, ◌++◌, ◌==◌,
  if◌then◌else◌,
}
use puncture.Common.Outcome.{Outcome, ok, err, panic}
use puncture.Node.{Answer}

-- url::Url, as far as it is read; an absent user name is the empty text.
pub record Url : Type 0 where
  pub text : String
  pub host_str : Option String
  pub port : Option ℕ
  pub username : String
  pub password : Option String

-- The options that the start reads.
pub record StartArgs : Type 0 where
  pub ldk_data_dir : String
  pub bitcoin_network : String
  pub bitcoind_rpc_url : Option Url
  pub esplora_rpc_url : Option Url
  pub lsp1_node_id : Option String
  pub lsp1_socket_address : Option String
  pub lsp1_token : Option String
  pub ldk_bind : String

-- The calls of `ldk_node::Builder`, of the node that it builds, and of `tokio::runtime::Runtime`.
pub data Setup : Type 0 where
  set_log_facade_logger : Setup
  set_node_alias : String → Setup
  set_storage_dir_path : String → Setup
  set_network : String → Setup
  set_gossip_source_rgs : String → Setup
  set_chain_source_bitcoind_rpc : String → ℕ → String → String → Setup
  set_chain_source_esplora : String → Setup
  set_liquidity_source_lsps1 : String → String → Option String → Setup
  set_listening_addresses : String → Setup
  build : Setup
  new_runtime : Setup
  start_with_runtime : Setup
  connect : String → String → Bool → Setup

-- The answers of the calls that can fail, and `SocketAddress::from_str`.
pub record SetupAnswers : Type 0 where
  pub set_node_alias : Answer (Unit {0})
  pub set_listening_addresses : Answer (Unit {0})
  pub build : Answer (Unit {0})
  pub new_runtime : Answer (Unit {0})
  pub start_with_runtime : Answer (Unit {0})
  pub parse_socket_address : String → Answer String

-- A part of the start: how it ends, and the calls that it made.
abbrev pub Start : Type 0
Start = Outcome (Unit {0}) × List Setup

infixl 5 ◌>>◌
abbrev pub ◌>>◌ : Start → Start → Start
(ok _, calls) >> (result, calls') = (result, calls ++ calls')
(err e, calls) >> _ = (err e, calls)
(panic e, calls) >> _ = (panic e, calls)

abbrev pub done : Start
done = (ok tt, [])

abbrev pub did : Setup → Start
did c = (ok tt, c ∷ [])

-- `call?`
abbrev pub tried : Setup → Answer (Unit {0}) → Start
tried c (Answer.granted _) = (ok tt, c ∷ [])
tried c (Answer.refused e) = (err e, c ∷ [])

-- `option.context(e)?`
abbrev pub with_some {ℓ} : {A : Type ℓ} → Option A → String → (A → Start) → Start
with_some none e f = (err e, [])
with_some (some a) e f = f a

abbrev default_text : Option String → String
default_text none = ""
default_text (some s) = s

-- The match on the two addresses; the command line's parser admits just one of them.
unfoldable pub chain_source : Option Url → Option Url → Start
chain_source (some url) none =
    with_some url.host_str "Invalid bitcoind RPC URL: missing host" (λ host.
      with_some url.port "Invalid bitcoind RPC URL: missing port" (λ port.
        did
          (Setup.set_chain_source_bitcoind_rpc host port url.username (default_text url.password))))
chain_source none (some url) = did (Setup.set_chain_source_esplora url.text)
chain_source (some _) (some _) = (panic "XOR relation is enforced by argument group", [])
chain_source none none = (panic "XOR relation is enforced by argument group", [])

-- The nodes that the first start on the main network connects to; a failure is logged.
unfoldable pub first_connections : Start
first_connections =
    did (
      Setup.connect "03864ef025fde8fb587d989186ce6a4a186895ee44a926bfc370e2c366597a3f8f"
        "3.33.236.230:9735" true)
    >> did (
        Setup.connect "027100442c3b79f606f80f322d98d499eefcb060599efc5d4ecb00209c2cb54190"
          "3.230.33.224:9735" true)
    >> did (
        Setup.connect "03c8e5f583585cac1de2b7503a6ccd3c12ba477cfd139cd4905be504c2f48e86bd"
          "34.73.189.183:9735" true)

module _ (answers : SetupAnswers) where
  unfoldable pub liquidity_source : Option String → Option String → Option String → Start
  liquidity_source (some node_id) (some socket_address) token =
      elim (answers.parse_socket_address socket_address) [
        | Answer.granted address ↦ did (Setup.set_liquidity_source_lsps1 node_id address token)
        | Answer.refused _ ↦ (err "Invalid LSP1 socket address", [])
      ]
  liquidity_source (some node_id) none token = done
  liquidity_source none socket_address token = done

  unfoldable pub configure_node : StartArgs → Start
  unfolding chain_source liquidity_source
  configure_node args =
      did Setup.set_log_facade_logger
      >> tried (Setup.set_node_alias "puncture-daemon") answers.set_node_alias
      >> did (Setup.set_storage_dir_path args.ldk_data_dir)
      >> did (Setup.set_network args.bitcoin_network)
      >> (if args.bitcoin_network == "bitcoin"
          then did (Setup.set_gossip_source_rgs "https://rapidsync.lightningdevkit.org/snapshot")
          else done)
      >> chain_source args.bitcoind_rpc_url args.esplora_rpc_url
      >> liquidity_source args.lsp1_node_id args.lsp1_socket_address args.lsp1_token
      >> tried (Setup.set_listening_addresses args.ldk_bind) answers.set_listening_addresses
      >> tried Setup.build answers.build
      >> tried Setup.new_runtime answers.new_runtime
      >> tried Setup.start_with_runtime answers.start_with_runtime

  -- `secret_exists`: a key file is there, so that this is not the first start.
  unfoldable pub start_node : Bool → StartArgs → Start
  unfolding configure_node first_connections
  start_node secret_exists args =
      configure_node args
      >> (if not secret_exists && args.bitcoin_network == "bitcoin"
          then first_connections
          else done)

-- ===== src/Startup/Outcomes.antt =====
-- How the start of the node ends.
use mathlib.Core.Path.{subst}
use puncture.Common.{
  String, Bool, true, false, not, ◌&&◌, inl, inr, Option, none, some, [], ◌==◌, ◌≡◌, refl, sym,
  arith, if◌then◌else◌,
}
use puncture.Common.Outcome.{ok, err, panic, is_ok}
use puncture.Node.{Answer-cases}
use puncture.Startup.{
  did, done, StartArgs, Setup, SetupAnswers, Start, ◌>>◌, liquidity_source, configure_node,
  first_connections, start_node,
}
use puncture.Startup.Parts.{
  HasOneSource, is_granted, is_complete, is_readable, is_startable, one_if_connect,
  count_connections, is_panic, Part, count_connections-append, then-Part, did-Part, tried-Part,
  chain_source-Part, and_order,
}

module _ (answers : SetupAnswers) where
  liquidity_source-Part :
      (node_id address token : Option String)
      → Part (liquidity_source answers node_id address token) (is_readable answers node_id address)
  unfolding liquidity_source
  liquidity_source-Part none address token = record {
    succeeds = refl;
    returns = refl;
    connects = refl;
  }
  liquidity_source-Part (some node_id) none token = record {
    succeeds = refl;
    returns = refl;
    connects = refl;
  }
  liquidity_source-Part (some node_id) (some address) token =
      elim (Answer-cases (answers.parse_socket_address address)) [
        | inl (read, e) ↦ ground arith
        | inr (message, e) ↦ ground arith
      ]

  gossip-Part :
      (b : Bool) (c : Setup) → one_if_connect c ≡ 0 → Part (if b then did c else done) true
  gossip-Part true c e = did-Part c e
  gossip-Part false c e = record { succeeds = refl; returns = refl; connects = refl }

  configure_node-Part :
      (args : StartArgs)
      → HasOneSource args
      → Part (configure_node answers args) (is_startable answers args)
  unfolding configure_node
  configure_node-Part args source =
      subst (Part (configure_node answers args))
        (and_order (is_granted answers.set_node_alias) (is_complete args.bitcoind_rpc_url)
          (is_readable answers args.lsp1_node_id args.lsp1_socket_address)
          (is_granted answers.set_listening_addresses) (is_granted answers.build)
          (is_granted answers.new_runtime) (is_granted answers.start_with_runtime))
        (then-Part
          (then-Part
            (then-Part
              (then-Part
                (then-Part
                  (then-Part
                    (then-Part
                      (then-Part
                        (then-Part
                          (then-Part (did-Part Setup.set_log_facade_logger refl) (
                            tried-Part (Setup.set_node_alias "puncture-daemon")
                              answers.set_node_alias refl))
                          (did-Part (Setup.set_storage_dir_path args.ldk_data_dir) refl))
                        (did-Part (Setup.set_network args.bitcoin_network) refl))
                      (gossip-Part (args.bitcoin_network == "bitcoin")
                        (Setup.set_gossip_source_rgs
                          "https://rapidsync.lightningdevkit.org/snapshot")
                        refl))
                    (chain_source-Part args source))
                  (liquidity_source-Part args.lsp1_node_id args.lsp1_socket_address
                    args.lsp1_token))
                (tried-Part (Setup.set_listening_addresses args.ldk_bind)
                  answers.set_listening_addresses refl))
              (tried-Part Setup.build answers.build refl))
            (tried-Part Setup.new_runtime answers.new_runtime refl))
          (tried-Part Setup.start_with_runtime answers.start_with_runtime refl))

-- The connections of the first start follow a start that succeeded.
connected :
    (start : Start) (b first : Bool)
    → Part start b
    → (is_ok (start >> (if first then first_connections else done)).0 ≡ b)
      × (is_panic (start >> (if first then first_connections else done)).0 ≡ false)
      × (count_connections (start >> (if first then first_connections else done)).1
          ≡ (if b && first then 3 else 0))
unfolding first_connections
connected (ok _, calls) b true x =
    rw (sym x.succeeds)
      (refl, refl, omega (arith, count_connections-append calls first_connections.1, x.connects))
connected (ok _, calls) b false x =
    rw (sym x.succeeds) (refl, refl, omega (arith, count_connections-append calls [], x.connects))
connected (err e, calls) b first x = rw (sym x.succeeds) (refl, refl, x.connects)
connected (panic e, calls) b first x = cc

-- Where just one of the two addresses of the chain is given, the start does not panic. It succeeds
-- exactly where an address of Bitcoin Core names its host and port, the address of a liquidity
-- provider that is given with its node id can be read, the node's library accepts its alias, its
-- addresses, its building and its start, and a runtime can be made. It calls `connect` for three nodes
-- where it succeeds, no key file exists yet and the network is the main one, and for none otherwise.
pub start_node_iff :
    (answers : SetupAnswers) (secret_exists : Bool) (args : StartArgs)
    → HasOneSource args
    → (is_ok (start_node answers secret_exists args).0 ≡ is_startable answers args)
      × (is_panic (start_node answers secret_exists args).0 ≡ false)
      × (count_connections (start_node answers secret_exists args).1 ≡ (
          if is_startable answers args && (not secret_exists && args.bitcoin_network == "bitcoin")
          then 3
          else 0))
unfolding start_node
start_node_iff answers secret_exists args source =
    connected (configure_node answers args) (is_startable answers args)
      (not secret_exists && args.bitcoin_network == "bitcoin")
      (configure_node-Part answers args source)

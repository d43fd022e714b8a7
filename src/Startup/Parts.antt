-- ===== src/Startup/Parts.antt =====
-- The parts of the start of the node: whether they succeed, and that they do not panic and connect
-- to nobody.
use puncture.Common.{
  ℕ, ◌+◌, String, Bool, true, false, ◌&&◌, ◌⊎◌, inl, inr, Option, none, some, List, [], ◌∷◌, ◌++◌,
  ◌≡◌, refl, sym, arith,
}
use puncture.Common.Outcome.{Outcome, ok, err, panic, is_ok}
use puncture.Node.{Answer}
use puncture.Startup.{
  did, tried, with_some, Url, StartArgs, Setup, SetupAnswers, Start, ◌>>◌, chain_source,
}

-- The command line's parser admits just one of the two addresses of the chain.
abbrev pub HasOneSource : StartArgs → Type 0
HasOneSource args =
    ((url : Url) × (args.bitcoind_rpc_url ≡ some url) × (args.esplora_rpc_url ≡ none))
    ⊎ ((url : Url) × (args.bitcoind_rpc_url ≡ none) × (args.esplora_rpc_url ≡ some url))

abbrev pub is_granted : {A : Type 0} → Answer A → Bool
is_granted (Answer.granted a) = true
is_granted (Answer.refused e) = false

abbrev pub is_some : {A : Type 0} → Option A → Bool
is_some none = false
is_some (some a) = true

-- An address of Bitcoin Core names its host and its port.
abbrev pub is_complete : Option Url → Bool
is_complete none = true
is_complete (some url) = is_some url.host_str && is_some url.port

module _ (answers : SetupAnswers) where
  -- A liquidity provider with a node id and an address has an address that can be read.
  abbrev pub is_readable : Option String → Option String → Bool
  is_readable (some node_id) (some address) = is_granted (answers.parse_socket_address address)
  is_readable (some node_id) none = true
  is_readable none address = true

  -- What the start takes: options that are complete, and a node and a runtime that accept every call.
  abbrev pub is_startable : StartArgs → Bool
  is_startable args =
      is_granted answers.set_node_alias
      && is_complete args.bitcoind_rpc_url
      && is_readable args.lsp1_node_id args.lsp1_socket_address
      && is_granted answers.set_listening_addresses
      && is_granted answers.build
      && is_granted answers.new_runtime
      && is_granted answers.start_with_runtime

abbrev pub one_if_connect : Setup → ℕ
one_if_connect (Setup.connect id address persist) = 1
one_if_connect _ = 0

-- The calls that connect to a node.
abbrev pub count_connections : List Setup → ℕ
count_connections [] = 0
count_connections (c ∷ calls) = one_if_connect c + count_connections calls

abbrev pub is_panic : Outcome (Unit {0}) → Bool
is_panic (ok _) = false
is_panic (err e) = false
is_panic (panic e) = true

-- A part that does not panic, succeeds just if `b`, and connects to nobody.
pub record Part (start : Start) (b : Bool) : Type 0 where
  pub succeeds : is_ok start.0 ≡ b
  pub returns : is_panic start.0 ≡ false
  pub connects : count_connections start.1 ≡ 0

pub count_connections-append :
    (xs ys : List Setup)
    → count_connections (xs ++ ys) ≡ count_connections xs + count_connections ys
count_connections-append [] ys = omega arith
count_connections-append (x ∷ xs) ys = omega (arith, count_connections-append xs ys)

pub then-Part : {a b : Start} {p q : Bool} → Part a p → Part b q → Part (a >> b) (p && q)
then-Part {a = (ok _, calls)} {b = (r, calls')} x y = rw (sym x.succeeds) (record {
  succeeds = y.succeeds;
  returns = y.returns;
  connects = omega (arith, count_connections-append calls calls', x.connects, y.connects);
})
then-Part {a = (err e, calls)} x y =
    rw (sym x.succeeds) (record { succeeds = refl; returns = refl; connects = x.connects })
then-Part {a = (panic e, calls)} x y = cc

pub did-Part : (c : Setup) → one_if_connect c ≡ 0 → Part (did c) true
did-Part c e = record { succeeds = refl; returns = refl; connects = omega arith }

pub tried-Part :
    (c : Setup) (answer : Answer (Unit {0}))
    → one_if_connect c ≡ 0
    → Part (tried c answer) (is_granted answer)
tried-Part c (Answer.granted _) e = record {
  succeeds = refl;
  returns = refl;
  connects = omega arith;
}
tried-Part c (Answer.refused _) e = record {
  succeeds = refl;
  returns = refl;
  connects = omega arith;
}

bitcoind-Part :
    (username password : String) (host : Option String) (port : Option ℕ)
    → Part
        (with_some host "Invalid bitcoind RPC URL: missing host" (λ host.
          with_some port "Invalid bitcoind RPC URL: missing port"
            (λ port. did (Setup.set_chain_source_bitcoind_rpc host port username password))))
        (is_some host && is_some port)
bitcoind-Part username password none port = record {
  succeeds = refl;
  returns = refl;
  connects = refl;
}
bitcoind-Part username password (some host) none = record {
  succeeds = refl;
  returns = refl;
  connects = refl;
}
bitcoind-Part username password (some host) (some port) = record {
  succeeds = refl;
  returns = refl;
  connects = refl;
}

pub chain_source-Part :
    (args : StartArgs)
    → HasOneSource args
    → Part
        (chain_source args.bitcoind_rpc_url args.esplora_rpc_url)
        (is_complete args.bitcoind_rpc_url)
unfolding chain_source
chain_source-Part args (inl (url, some_url, no_url)) =
    rw (some_url, no_url) (bitcoind-Part url.username _ url.host_str url.port)
chain_source-Part args (inr (url, no_url, some_url)) =
    rw (some_url, no_url) (record { succeeds = refl; returns = refl; connects = refl })

pub and_order :
    (a b c d e f g : Bool)
    → (((((((((true && a) && true) && true) && true) && b) && c) && d) && e) && f) && g
      ≡ (a && b && c && d && e && f && g)
and_order false b c d e f g = refl
and_order true false c d e f g = refl
and_order true true false d e f g = refl
and_order true true true false e f g = refl
and_order true true true true false f g = refl
and_order true true true true true false g = refl
and_order true true true true true true g = refl

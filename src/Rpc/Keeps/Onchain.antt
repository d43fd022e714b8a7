-- ===== src/Rpc/Keeps/Onchain.antt =====
-- What `onchain_send` can do to the tables.
use puncture.Common.{arith, String, ◌≡◌, none, inl, inr, Bool-cases, Bool, true, false, ◌||◌, ltb}
use puncture.Common.Words.{mul64, add64}
use puncture.ClientCore.{OnchainSendRequest}
use puncture.Ledger
use puncture.Models.{Tables}
use puncture.ClientDb.{create_send_payment}
use puncture.Node.{Answer, Answer-cases}
use puncture.Handler.{Env, World}
use puncture.Handler.Keeps.{tables_after, Either, Either-keeps}
use puncture.Rpc.Actions.{push_events}
use puncture.Rpc.Send.{onchain_send}

module _ (env : Env) (u : String) (w : World) where
  onchain_stored :
      (request : OnchainSendRequest) (address txid : String)
      → env.node.require_network request.address ≡ Answer.granted address
      → env.node.onchain_send address request.amount_sats ≡ Answer.granted txid
      → Either (onchain_send env u request w).1.db w.db (
          tables_after
            (create_send_payment env.now txid u
              (mul64 request.amount_sats 1000)
              env.args.onchain_base_fee_msat
              ""
              address
              "successful"
              none
              w.db)
            w.db)
  unfolding onchain_send push_events
  onchain_stored request address txid a t = ground arith

  -- The two tests of the balance.
  abbrev pub short : OnchainSendRequest → Bool
  short request =
      ltb (Ledger.user_balance w.db u) (mul64 request.amount_sats 1000)
      || ltb (Ledger.user_balance w.db u)
          (add64 (mul64 request.amount_sats 1000) env.args.onchain_base_fee_msat)

  onchain_short :
      (request : OnchainSendRequest)
      → short request ≡ true
      → (onchain_send env u request w).1.db ≡ w.db
  unfolding onchain_send push_events
  onchain_short request h = ground arith

  onchain_refused :
      (request : OnchainSendRequest) (m : String)
      → env.node.require_network request.address ≡ Answer.refused m
      → (onchain_send env u request w).1.db ≡ w.db
  unfolding onchain_send push_events
  onchain_refused request m a = ground arith

  onchain_unsent :
      (request : OnchainSendRequest) (address m : String)
      → env.node.require_network request.address ≡ Answer.granted address
      → env.node.onchain_send address request.amount_sats ≡ Answer.refused m
      → (onchain_send env u request w).1.db ≡ w.db
  unfolding onchain_send push_events
  onchain_unsent request address m a t = ground arith

  -- What holds of the tables holds after the call, if it holds after a payment that is booked.
  module _ (P : Tables → Type 0) (before : P w.db) (request : OnchainSendRequest)
      (kept : short request ≡ false
        → (txid address : String)
        → P (
            tables_after
              (create_send_payment env.now txid u
                (mul64 request.amount_sats 1000)
                env.args.onchain_base_fee_msat
                ""
                address
                "successful"
                none
                w.db)
              w.db)) where
    onchain_rich-keeps : short request ≡ false → P (onchain_send env u request w).1.db
    onchain_rich-keeps h = elim (Answer-cases (env.node.require_network request.address)) [
      | inl (address, a) ↦ elim (Answer-cases (env.node.onchain_send address request.amount_sats)) [
        | inl (txid, t) ↦
            Either-keeps P (onchain_stored request address txid a t) before (kept h txid address)
        | inr (m, t) ↦ rw (onchain_unsent request address m a t) before
      ]
      | inr (m, a) ↦ rw (onchain_refused request m a) before
    ]

    pub onchain_send-keeps : P (onchain_send env u request w).1.db
    onchain_send-keeps = elim (Bool-cases (short request)) [
      | inl poor ↦ rw (onchain_short request poor) before
      | inr rich ↦ onchain_rich-keeps rich
    ]

-- ===== src/Bank/Requests.antt =====
-- Each request of a user is one move of that user, or moves nothing.
use puncture.Common.{
  ℕ, ◌+◌, ◌≤◌, String, ◌≡◌, refl, Bool, Option, none, some, arith, inl, inr, Option-cases, ◌==◌,
  if◌then◌else◌,
}
use puncture.Common.Outcome.{ok}
use puncture.Common.Words.{mul64}
use puncture.Models.{Tables}
use puncture.ClientCore.{OnchainSendRequest, RecoverRequest}
use puncture.Ledger
use puncture.Ledger.Balance.{Fits, user_balance_lem}
use puncture.ClientDb.{get_recovery}
use puncture.Node.{Answer}
use puncture.Handler.{Env, World}
use puncture.Handler.Keeps.{Either-keeps}
use puncture.Rpc.Checks.{check_send}
use puncture.Rpc.Account.{register, set_recovery_name, recover}
use puncture.Rpc.Receive.{bolt11_receive, bolt12_receive}
use puncture.Rpc.Send.{bolt11_send, bolt12_send, onchain_send}
use puncture.Rpc.Keeps.{KeptByTransfer, KeptBySend, bolt11_send-keeps, bolt12_send-keeps}
use puncture.Rpc.Keeps.Onchain.{onchain_send-keeps}
use puncture.Rpc.Solvency.{IsSane, IsSound, check_send-covers}
use puncture.Rpc.Solvency.Onchain.{onchain-covers}
use puncture.Rpc.Solvency.Recovery.{recover-known, recover-unknown}
use puncture.Rpc.Solvency.Others.{
  SameLedger, register-SameLedger, set_recovery_name-SameLedger, bolt11_receive-SameLedger,
  bolt12_receive-SameLedger,
}
use puncture.Api.{handle_request}
use puncture.Api.Messages.{Codec, ClientRpcRequest}
use puncture.Api.Dispatch.{handle_request_rule, respond_rule}
use puncture.Bank.{accounts, claims, Actor, Moves, Move}
use puncture.Bank.Inserts.{SameLedger-Same, create_internal_transfer_rule, create_send_payment_rule}

-- The id that a request to recover an account presents.
abbrev pub presented : Codec → ClientRpcRequest → Option String
presented codec request =
    if request.method == "recover"
    then elim (codec.recover request.request) [
      | Answer.granted r ↦ some r.recovery_id
      | Answer.refused e ↦ none
    ]
    else none

module _ (env : Env) (u : String) (w : World) (sound : IsSound w.db) (sane : IsSane env.args)
    (fits : Fits w.db) (codec : Codec) (request : ClientRpcRequest) where
  -- The user makes a move from here to the tables.
  abbrev ByUser : Tables → Type 0
  ByUser db' =
      Move (claims w.db) (accounts w.db) (accounts db') (Actor.client u (presented codec request))

  stays : ByUser w.db
  stays = Move.stay λ v. refl

  SameLedger-ByUser : (db' : Tables) → SameLedger db' w.db → ByUser db'
  SameLedger-ByUser db' same = Move.stay (SameLedger-Same db' w.db same)

  -- A payment that passes the checks is covered, with its fee and with that of a transfer.
  checked :
      (amount fee : ℕ)
      → check_send env.args u amount w.db ≡ ok fee
      → (amount + fee ≤ accounts w.db u) × (amount + 1000 ≤ accounts w.db u)
  checked amount fee e =
      let c = check_send-covers env.args u amount w.db (fits u) (sound.solvent u) sane e in
      (omega (arith, c.0), omega (arith, c.0, c.1, sane.fee_low))

  booked :
      (amount fee : ℕ)
      → check_send env.args u amount w.db ≡ ok fee
      → KeptByTransfer ByUser env u w stays amount × KeptBySend ByUser env u w stays amount fee
  booked amount fee e =
      let (covers, covers_transfer) = checked amount fee e in
      (
        λ to pr description.
            create_internal_transfer_rule env.now env.transfer_id u amount 1000 w.db sound
              covers_transfer ByUser to pr description stays
              λ db' moves. Move.pay to amount covers_transfer moves,
        λ id description pr ln_address.
            create_send_payment_rule env.now id u amount fee w.db sound covers ByUser description pr
              "pending" ln_address refl stays λ db' moves. Move.pay_out (amount + fee) covers moves,
      )

  onchain_send-ByUser : (request : OnchainSendRequest) → ByUser (onchain_send env u request w).1.db
  onchain_send-ByUser request = onchain_send-keeps env u w ByUser stays request λ rich txid address.
      let amount = mul64 request.amount_sats 1000 in
      let fee = env.args.onchain_base_fee_msat in
      let covers : amount + fee ≤ accounts w.db u =
        omega (arith, onchain-covers env u w sound sane fits request rich) in
      create_send_payment_rule env.now txid u amount fee w.db sound covers ByUser "" address
        "successful" none refl stays λ db' moves. Move.pay_out (amount + fee) covers moves

  collected :
      (from : String) (amount : ℕ) (db' : Tables)
      → amount ≡ accounts w.db from
      → Moves from (amount + 0) u amount (accounts w.db) (accounts db')
      → Moves from (accounts w.db from) u (accounts w.db from) (accounts w.db) (accounts db')
  collected from amount db' e moves v = rw (← e) (ground (arith, moves v))

  recover-ByUser :
      (r : RecoverRequest)
      → presented codec request ≡ some r.recovery_id
      → ByUser (recover env u r w).1.db
  unfolding get_recovery
  recover-ByUser r claimed = elim (Option-cases (get_recovery w.db r.recovery_id)) [
    | inl e ↦ rw (recover-unknown env u r w e) stays
    | inr (recovery, e) ↦
        let from = recovery.user_pk in
        let amount = Ledger.user_balance w.db from in
        let whole : amount ≡ accounts w.db from =
          user_balance_lem w.db from (fits from) (sound.solvent from) in
        Either-keeps ByUser (recover-known env u r w recovery e) stays (
          create_internal_transfer_rule env.now env.transfer_id from amount 0 w.db sound
            (omega (arith, whole)) ByUser u recovery.id "Recovery" stays
            λ db' moves. rw claimed (
              Move.collect r.recovery_id from (ground (arith, e))
                (collected from amount db' whole moves)))
  ]

  -- Whatever a client sends, and however it ends, it makes one move of the user, or none.
  pub handle_request-Move :
      Move
        (claims w.db)
        (accounts w.db)
        (accounts (handle_request codec env u request w).1.db)
        (Actor.client u (presented codec request))
  handle_request-Move =
      handle_request_rule (λ ended. ByUser ended.1.db) w codec env u request (λ e. stays)
        (λ r.
          respond_rule After _ (register env u r) w
            (SameLedger-ByUser (register env u r w).1.db (register-SameLedger env u w r)))
        (λ r.
          respond_rule After _ (bolt11_receive env u r) w (
            SameLedger-ByUser (bolt11_receive env u r w).1.db
              (bolt11_receive-SameLedger env u w r)))
        (respond_rule After _ (bolt12_receive env u) w
          (SameLedger-ByUser (bolt12_receive env u w).1.db (bolt12_receive-SameLedger env u w)))
        (λ r.
          respond_rule After _ (bolt11_send env u r) w
            (bolt11_send-keeps ByUser env u w stays r λ fee e. booked r.amount_msat fee e))
        (λ r.
          respond_rule After _ (bolt12_send env u r) w
            (bolt12_send-keeps ByUser env u w stays r λ fee e. booked r.amount_msat fee e))
        (λ r. respond_rule After _ (onchain_send env u r) w (onchain_send-ByUser r))
        (λ r. respond_rule After _ (set_recovery_name env u r) w (
          SameLedger-ByUser (set_recovery_name env u r w).1.db
            (set_recovery_name-SameLedger env u w r)))
        (λ named r read.
          respond_rule After _ (recover env u r) w (recover-ByUser r (rw (named, read) refl)))
    where
      After : Bool → World → Type 0
      After done w' = ByUser w'.db

-- ===== src/Api/Pending.antt =====
-- The limit on the payments that a user has under way.
use puncture.Common.{
  true, ℕ, ◌+◌, ◌≤◌, ◌<◌, String, Bool, ◌≡◌, List, [], ◌∷◌, ◌++◌, arith, length, filter, ◌==◌, ◌&&◌,
  eq_iff, if◌then◌else◌, Option, Option-cases, inl, inr, none,
}
use puncture.Common.Outcome.{ok}
use puncture.Common.Words.{mul64}
use puncture.Models.{SendRecord, Tables}
use puncture.ClientCore.{Bolt11SendRequest, Bolt12SendRequest, OnchainSendRequest, RecoverRequest}
use puncture.Ledger
use puncture.ClientDb.{
  get_recovery, count_pending_sends, transfer_send, create_internal_transfer, send_row,
  create_send_payment,
}
use puncture.Handler.{Env, World}
use puncture.Handler.Keeps.{tables_after, Either-keeps}
use puncture.Rpc.Checks.{check_send}
use puncture.Rpc.Account.{register, set_recovery_name, recover}
use puncture.Rpc.Receive.{bolt11_receive, bolt12_receive}
use puncture.Rpc.Send.{bolt11_send, bolt12_send, onchain_send}
use puncture.Rpc.Keeps.{bolt11_send-keeps, bolt12_send-keeps}
use puncture.Rpc.Keeps.Onchain.{onchain_send-keeps}
use puncture.Rpc.Solvency.Recovery.{recover-known, recover-unknown}
use puncture.Rpc.Solvency.Others.{
  SameLedger, register-SameLedger, set_recovery_name-SameLedger, bolt11_receive-SameLedger,
  bolt12_receive-SameLedger,
}
use puncture.Api.Messages.{Codec, ClientRpcRequest}
use puncture.Api.Dispatch.{handle_request_rule, respond_rule}
use puncture.Api.{handle_request}

-- The payments of a user under way, among the rows of sends.
abbrev pending : String → List SendRecord → ℕ
pending v rows = length (filter (λ s. s.status == "pending") (filter (λ s. s.user_pk == v) rows))

pending-append :
    (v : String) (s : SendRecord) (rows : List SendRecord)
    → pending v (rows ++ s ∷ [])
      ≡ pending v rows + (if s.user_pk == v && s.status == "pending" then 1 else 0)
pending-append v s [] = ground arith
pending-append v s (x ∷ rows) = ground (arith, pending-append v s rows)

-- No user has more payments under way than the limit.
abbrev pub Limited : ℕ → Tables → Type 0
Limited limit db = (v : String) → count_pending_sends db v ≤ limit

module _ (now : ℕ) (id from : String) (amount fee limit : ℕ) (db : Tables)
    (limited : Limited limit db) where
  create_internal_transfer-Limited :
      (to pr description : String)
      → Limited limit
          (tables_after (create_internal_transfer now id from to amount fee pr description db) db)
  unfolding create_internal_transfer count_pending_sends
  create_internal_transfer-Limited to pr description v = ground (
    arith,
    limited v,
    pending-append v (transfer_send now id from amount fee pr description) db.sends,
  )

  -- One more payment fits under the limit, or it is not under way.
  create_send_payment-Limited :
      (status : String)
      → ((status == "pending") ≡ true → count_pending_sends db from < limit)
      → (description pr : String) (ln_address : Option String)
      → Limited limit (
          tables_after
            (create_send_payment now id from amount fee description pr status ln_address db)
            db)
  unfolding create_send_payment count_pending_sends
  create_send_payment-Limited status room description pr ln_address v = ground (
    arith,
    limited v,
    eq_iff from v,
    room,
    pending-append v (send_row now id from amount fee description pr status ln_address) db.sends,
  )

module _ (env : Env) (u : String) (w : World)
    (limited : Limited env.args.max_pending_payments_per_user w.db) where
  abbrev limit : ℕ
  limit = env.args.max_pending_payments_per_user

  check_send-room :
      (amount fee : ℕ)
      → check_send env.args u amount w.db ≡ ok fee
      → count_pending_sends w.db u < limit
  unfolding check_send
  check_send-room amount fee h = ground arith

  bolt11_send-Limited :
      (request : Bolt11SendRequest) → Limited limit (bolt11_send env u request w).1.db
  bolt11_send-Limited request = bolt11_send-keeps (Limited limit) env u w limited request λ fee e. (
    create_internal_transfer-Limited env.now env.transfer_id u request.amount_msat 1000 limit w.db
        limited,
    λ id.
        create_send_payment-Limited env.now id u request.amount_msat fee limit w.db limited
          "pending" λ _. check_send-room request.amount_msat fee e,
  )

  bolt12_send-Limited :
      (request : Bolt12SendRequest) → Limited limit (bolt12_send env u request w).1.db
  bolt12_send-Limited request = bolt12_send-keeps (Limited limit) env u w limited request λ fee e. (
    create_internal_transfer-Limited env.now env.transfer_id u request.amount_msat 1000 limit w.db
        limited,
    λ id.
        create_send_payment-Limited env.now id u request.amount_msat fee limit w.db limited
          "pending" λ _. check_send-room request.amount_msat fee e,
  )

  onchain_send-Limited :
      (request : OnchainSendRequest) → Limited limit (onchain_send env u request w).1.db
  onchain_send-Limited request =
      onchain_send-keeps env u w (Limited limit) limited request λ rich txid address.
        create_send_payment-Limited env.now txid u (mul64 request.amount_sats 1000)
          env.args.onchain_base_fee_msat limit w.db limited "successful" (λ e. ground arith) ""
          address none

  recover-Limited : (request : RecoverRequest) → Limited limit (recover env u request w).1.db
  recover-Limited request = elim (Option-cases (get_recovery w.db request.recovery_id)) [
    | inl e ↦ rw (recover-unknown env u request w e) limited
    | inr (recovery, e) ↦
        Either-keeps (Limited limit) (recover-known env u request w recovery e) limited (
          create_internal_transfer-Limited env.now env.transfer_id recovery.user_pk
            (Ledger.user_balance w.db recovery.user_pk) 0 limit w.db limited u recovery.id
            "Recovery")
  ]

abbrev After : ℕ → Bool → World → Type 0
After limit done w' = Limited limit w'.db

SameLedger-Limited :
    (limit : ℕ) (db' db : Tables) → SameLedger db' db → Limited limit db → Limited limit db'
unfolding count_pending_sends
SameLedger-Limited limit db' db same limited v = rw same.0 (limited v)

-- Where no user has more payments under way than the limit, no request of any client, however it
-- ends, makes a user have more.
pub handle_request_pending :
    (codec : Codec) (env : Env) (u : String) (request : ClientRpcRequest) (w : World)
    → ((v : String) → count_pending_sends w.db v ≤ env.args.max_pending_payments_per_user)
    → (v : String)
    → count_pending_sends (handle_request codec env u request w).1.db v
      ≤ env.args.max_pending_payments_per_user
handle_request_pending codec env u request w limited =
    let limit = env.args.max_pending_payments_per_user in
    handle_request_rule (λ ended. Limited limit ended.1.db) w codec env u request (λ e. limited)
      (λ r.
        respond_rule (After limit) _ (register env u r) w
          (SameLedger-Limited limit _ w.db (register-SameLedger env u w r) limited))
      (λ r.
        respond_rule (After limit) _ (bolt11_receive env u r) w
          (SameLedger-Limited limit _ w.db (bolt11_receive-SameLedger env u w r) limited))
      (respond_rule (After limit) _ (bolt12_receive env u) w
        (SameLedger-Limited limit _ w.db (bolt12_receive-SameLedger env u w) limited))
      (λ r.
        respond_rule (After limit) _ (bolt11_send env u r) w
          (bolt11_send-Limited env u w limited r))
      (λ r.
        respond_rule (After limit) _ (bolt12_send env u r) w
          (bolt12_send-Limited env u w limited r))
      (λ r.
        respond_rule (After limit) _ (onchain_send env u r) w
          (onchain_send-Limited env u w limited r))
      (λ r.
        respond_rule (After limit) _ (set_recovery_name env u r) w
          (SameLedger-Limited limit _ w.db (set_recovery_name-SameLedger env u w r) limited))
      (λ _ r _.
        respond_rule (After limit) _ (recover env u r) w (recover-Limited env u w limited r))

-- ===== src/Tests/Payments.antt =====
-- The theorems on payments at inputs that meet their conditions.
use puncture.Common.{
  ℕ, ◌+◌, ◌*◌, ◌/◌, ◌≤◌, ◌<◌, String, false, ◌≡◌, ◌≢◌, ◌↔◌, refl, arith, none, [], ◌∷◌, ◌++◌, ◌==◌,
  if◌then◌else◌,
}
use puncture.Common.Outcome.{ok, panic}
use puncture.Ledger.{get_invoice, get_offer, user_balance}
use puncture.Ledger.Balance.{received, spent}
use puncture.Common.Words.{saturating_sub, sum64}
use puncture.ClientDb.{
  count_pending_sends, get_recovery, create_internal_transfer, send_row, create_send_payment,
}
use puncture.ClientDb.Inserts.{has_id}
use puncture.Node.{Answer, NodeCall}
use puncture.Rpc.Checks.{check_send}
use puncture.Rpc.Actions.{push_events}
use puncture.Rpc.Account.{recover}
use puncture.Rpc.Send.{pay_user, bolt11_send_to, bolt11_send, bolt12_send}
use puncture.Rpc.Effects.{bolt11_send_internal, bolt11_send_external, bolt12_send_unrecorded}
use puncture.Rpc.Effects.Accepts.{check_send_iff}
use puncture.Rpc.Effects.Recovered.{recover_empties}
use puncture.Tests.Data.{
  args, env, node, shop, foreign_invoice, bare_offer, bob_invoice, book_invoice,
}

balance_at_first : user_balance shop.db "alice" ≡ 4789000
unfolding user_balance saturating_sub sum64
balance_at_first = refl

pays_bob : (bolt11_send env "alice" bob_invoice shop).0 ≡ ok tt
unfolding bolt11_send bolt11_send_to pay_user push_events check_send get_invoice count_pending_sends
    user_balance saturating_sub sum64 create_internal_transfer
pays_bob = refl

bolt11_send_internal_example :
    let w' = (bolt11_send env "alice" bob_invoice shop).1 in
    (◌≢◌ {A = String} "bob" "alice")
    × ((v : String)
        → (spent v w'.db.sends ≡ spent v shop.db.sends + (if "alice" == v then 101000 else 0))
          × (received v w'.db.receives
              ≡ received v shop.db.receives + (if "bob" == v then 100000 else 0)))
    × (w'.calls ≡ [])
unfolding get_invoice
bolt11_send_internal_example = bolt11_send_internal env "alice" shop bob_invoice _ refl pays_bob

pays_book : (bolt11_send env "alice" book_invoice shop).0 ≡ ok tt
unfolding bolt11_send bolt11_send_to push_events check_send get_invoice count_pending_sends
    user_balance saturating_sub sum64 create_send_payment
pays_book = refl

bolt11_send_external_example :
    let w' = (bolt11_send env "alice" book_invoice shop).1 in
    (id : String) × (fee : ℕ) × (node.bolt11_send foreign_invoice 1000000 ≡ Answer.granted id)
    × (check_send args "alice" 1000000 shop.db ≡ ok fee)
    × (has_id id shop.db.sends ≡ false)
    × (w'.calls ≡ NodeCall.bolt11_send foreign_invoice 1000000 ∷ [])
    × (w'.db.sends
        ≡ shop.db.sends ++ send_row 5000 id "alice" 1000000 fee "books" "lnbc9" "pending" none ∷ [])
    × (w'.db.receives ≡ shop.db.receives)
unfolding get_invoice
bolt11_send_external_example = bolt11_send_external env "alice" shop book_invoice refl pays_book

check_passes : check_send args "alice" 1000000 shop.db ≡ ok 15000
unfolding check_send count_pending_sends user_balance saturating_sub sum64
check_passes = refl

bolt12_send_unrecorded_example :
    bolt12_send env "alice" (record { offer = "lno9"; amount_msat = 1000000 }) shop ≡ (
      panic "called `Option::unwrap()` on a `None` value",
      record shop { calls = NodeCall.bolt12_send bare_offer 1000000 ∷ [] },
    )
unfolding get_offer
bolt12_send_unrecorded_example =
    bolt12_send_unrecorded env "alice" shop (record { offer = "lno9"; amount_msat = 1000000 })
      bare_offer "o9" 15000 check_passes refl refl refl refl

check_send_iff_example : (check_send args "alice" 1000000 shop.db ≡ ok 15000) ↔ (
    (count_pending_sends shop.db "alice" < 10)
    × (1 * 1000 ≤ 1000000)
    × (1000000 ≤ 100000 * 1000)
    × (spent "alice" shop.db.sends + 1000000 + 15000 ≤ received "alice" shop.db.receives)
    × (15000 ≡ 1000000 * 5000 / 1000000 + 10000))
check_send_iff_example =
    check_send_iff args "alice" 1000000 15000 shop.db (omega arith) (omega arith) (omega arith)
      (omega arith) (omega arith) (omega arith)

recovers : (recover env "bob" (record { recovery_id = "c1" }) shop).0 ≡ ok 4789000
unfolding recover push_events get_recovery create_internal_transfer user_balance saturating_sub
    sum64
recovers = refl

recover_empties_example :
    let db' = (recover env "bob" (record { recovery_id = "c1" }) shop).1.db in
    (user_balance db' "alice" ≡ 0)
    × (0 < 4789000)
    × (4789000 ≡ user_balance shop.db "alice")
    × (received "bob" db'.receives ≡ received "bob" shop.db.receives + 4789000)
    × ((v : String)
        → v ≢ "bob"
        → v ≢ "alice"
        → (spent v db'.sends ≡ spent v shop.db.sends)
          × (received v db'.receives ≡ received v shop.db.receives))
unfolding get_recovery
recover_empties_example =
    recover_empties env "bob" (record { recovery_id = "c1" }) shop _ 4789000 refl recovers
      (omega arith) (omega arith)

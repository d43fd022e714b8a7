-- ===== src/Tests/Requests.antt =====
-- The theorems on requests, codes and reports of the node at inputs that meet their conditions.
use puncture.Common.{
  ◌+◌, ◌-◌, ◌<◌, ◌^◌, String, false, ◌≡◌, ◌≢◌, refl, arith, some, none, [], ◌∷◌, eq_iff,
}
use puncture.Common.Outcome.{is_ok}
use puncture.Ledger.{get_invoice, user_balance}
use puncture.Ledger.Balance.{received, spent}
use puncture.Common.Words.{saturating_sub, sum64}
use puncture.ClientDb.{count_pending_sends, create_send_payment, user_exists}
use puncture.Node.{Answer}
use puncture.Rpc.Checks.{check_send}
use puncture.Rpc.Actions.{push_events}
use puncture.Rpc.Send.{bolt11_send_to, bolt11_send}
use puncture.Api.{handle_request}
use puncture.Api.Messages.{Codec, ClientRpcRequest}
use puncture.Api.Atomic.{handle_request_atomic, handle_request_unregistered}
use puncture.Codes.{Encoding, PunctureCode, invite}
use puncture.LdkEvents.{Event, PaymentKind, process_ldk_event}
use puncture.LdkEvents.Replay.{payment_received_twice}
use puncture.LdkEvents.Settlement.{
  payment_failed_refunds, payment_successful_charges, payment_successful_overdraws,
}
use puncture.Tests.Data.{env, shop, pending_send, book_invoice, same_id}

-- A codec that decodes every request as the same one.
abbrev pub codec : Codec
codec = record {
  register = λ text. Answer.granted (record { invite_id = "i1" });
  bolt11_receive = λ text. Answer.refused "no";
  empty = λ text. Answer.granted tt;
  bolt11_send = λ text. Answer.granted book_invoice;
  bolt12_send = λ text. Answer.refused "no";
  onchain_send = λ text. Answer.refused "no";
  set_recovery_name = λ text. Answer.granted (record { recovery_name = none });
  recover = λ text. Answer.granted (record { recovery_id = "c1" });
}

pays : ClientRpcRequest
pays = record { method = "bolt11_send"; request = "{}" }

panics : is_ok (handle_request codec same_id "alice" pays shop).0 ≡ false
unfolding pays
panics =
    unfold handle_request bolt11_send bolt11_send_to push_events check_send get_invoice
      count_pending_sends user_balance saturating_sub sum64 create_send_payment user_exists in
    refl

handle_request_atomic_example : (handle_request codec same_id "alice" pays shop).1.db ≡ shop.db
handle_request_atomic_example = handle_request_atomic codec same_id "alice" pays shop panics

handle_request_unregistered_example :
    (is_ok (handle_request codec env "eve" pays shop).0 ≡ false)
    × ((handle_request codec env "eve" pays shop).1 ≡ shop)
unfolding user_exists pays
handle_request_unregistered_example =
    handle_request_unregistered codec env "eve" pays shop refl
      (λ e. ground (arith, eq_iff "bolt11_send" "register"))

-- A code is written as one number, and hex as one character.
abbrev invite_1 : PunctureCode
invite_1 = invite "i1" "n1"

abbrev encoding : Encoding
encoding = record {
  to_bytes =
      λ c. elim c [ PunctureCode.invite_code i ↦ 1 ∷ [] | PunctureCode.recovery_code r ↦ 2 ∷ [] ];
  from_bytes = λ b. Answer.granted invite_1;
  to_hex = λ b. "01";
  from_hex = λ s. Answer.granted (1 ∷ []);
}

payment_failed_refunds_example :
    let db' = (process_ldk_event 6000 (λ i. none) (Event.payment_failed (some "s1")) shop).1.db in
    (user_balance db' "alice" ≡ user_balance shop.db "alice" + 200000 + 11000)
    × ((u : String)
        → u ≢ "alice"
        → (spent u db'.sends ≡ spent u shop.db.sends)
          × (received u db'.receives ≡ received u shop.db.receives))
payment_failed_refunds_example =
    payment_failed_refunds 6000 (λ i. none) "s1" pending_send shop (refl, tt) refl refl
      (omega arith) (omega arith)

payment_successful_charges_example :
    let event = Event.payment_successful (some "s1") (some 3000) in
    let db' = (process_ldk_event 6000 (λ i. none) event shop).1.db in
    user_balance db' "alice" + 3000 ≡ user_balance shop.db "alice" + 11000
payment_successful_charges_example =
    payment_successful_charges 6000 (λ i. none) "s1" pending_send shop (refl, tt) refl refl 3000
      (omega arith) (omega arith) (omega arith)

dear : user_balance shop.db "alice" + 11000 < 5000000
unfolding user_balance saturating_sub sum64
dear = omega arith

payment_successful_overdraws_example :
    let event = Event.payment_successful (some "s1") (some 5000000) in
    let db' = (process_ldk_event 6000 (λ i. none) event shop).1.db in
    user_balance db' "alice" ≡ 2 ^ 64 - (5000000 - (user_balance shop.db "alice" + 11000))
payment_successful_overdraws_example =
    payment_successful_overdraws 6000 (λ i. none) "s1" pending_send shop (refl, tt) refl refl
      5000000 (omega arith) (omega arith) (omega arith) dear

payment_received_twice_example :
    let event = Event.payment_received (some "h1") 100000 in
    let kind = λ (i : String). some (PaymentKind.bolt11 i) in
    let w' = (process_ldk_event 6000 kind event shop).1 in
    (process_ldk_event 7000 kind event w').1.db ≡ w'.db
payment_received_twice_example =
    payment_received_twice 6000 7000 (λ i. some (PaymentKind.bolt11 i)) (some "h1") 100000 shop

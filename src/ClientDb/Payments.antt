-- ===== src/ClientDb/Payments.antt =====
-- `user_payments` in puncture-daemon/src/client/db.rs, and the events that a user gets first
-- (`events` in puncture-daemon/src/client/mod.rs). Rows with the same time come in the order of
-- insertion, which is one of the orders that the query allows.
pub mod Recent
use puncture.Common.{ℕ, ◌-◌, String, false, List, [], ◌∷◌, ◌++◌, map, length, filter, ◌==◌}
use puncture.Common.Outcome.{Outcome, ok}
use puncture.Common.Sorting.{take, drop, sort_by_key, order_desc}
use puncture.Models.{ReceiveRecord, SendRecord, Tables}
use puncture.ClientCore.{Payment, AppEvent}
use puncture.Convert.{received_payment, sent_payment}
use puncture.Ledger
use puncture.Events.{Received, subscribe_to_events}

-- The payments of a user, received and sent.
abbrev pub own_receives : Tables → String → List ReceiveRecord
own_receives db user_pk = filter (λ row. row.user_pk == user_pk) db.receives

abbrev pub own_sends : Tables → String → List SendRecord
own_sends db user_pk = filter (λ row. row.user_pk == user_pk) db.sends

abbrev pub receive_payments : Tables → String → List Payment
receive_payments db user_pk =
    map (λ (row : ReceiveRecord). received_payment row false)
      (take 50 (order_desc (λ (row : ReceiveRecord). row.created_at) (own_receives db user_pk)))

abbrev pub send_payments : Tables → String → List Payment
send_payments db user_pk =
    map (λ (row : SendRecord). sent_payment row false)
      (take 50 (order_desc (λ (row : SendRecord). row.created_at) (own_sends db user_pk)))

unfoldable pub user_payments : Tables → String → List Payment
user_payments db user_pk =
    let payments =
      sort_by_key (λ (p : Payment). p.created_at)
        (receive_payments db user_pk ++ send_payments db user_pk) in
    drop (length payments - 50) payments

-- `items` is what the channel delivers to the user's receiver from the subscription on.
unfoldable pub events : Tables → String → List Received → List (Outcome AppEvent)
unfolding user_payments
events db user_pk items =
    ok (AppEvent.balance (record { amount_msat = Ledger.user_balance db user_pk }))
      ∷ map (λ (p : Payment). ok (AppEvent.payment p)) (user_payments db user_pk)
    ++ subscribe_to_events user_pk items

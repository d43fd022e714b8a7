-- ===== src/ClientDb/Payments/Recent.antt =====
-- The history that a user is shown holds the newest payments, in order.
use puncture.Common.{
  ℕ, ◌-◌, ◌≤◌, String, Bool, false, ◌≡◌, refl, List, [], ◌∷◌, ◌++◌, map, filter, length, arith,
  ◌==◌, if◌then◌else◌,
}
use Prim.Native.Nat.{min}
use puncture.Common.Sorting.{
  take, sort_by_key, order_desc, count_from, count_from-append, count_from-newest, count_from-last,
  IsAscending, sort_by_key-IsAscending, drop-IsAscending,
}
use puncture.Common.Sorting.Count.{
  count, count-append, count-take, count-drop, count-sort_by_key, count-order_desc, count-map,
}
use puncture.Models.{ReceiveRecord, SendRecord, Tables}
use puncture.ClientCore.{Payment}
use puncture.Convert.{received_payment, sent_payment}
use puncture.ClientDb.Payments.{
  own_receives, own_sends, receive_payments, send_payments, user_payments,
}

abbrev received_at : ReceiveRecord → ℕ
received_at row = row.created_at

abbrev sent_at : SendRecord → ℕ
sent_at row = row.created_at

abbrev paid_at : Payment → ℕ
paid_at p = p.created_at

count_received :
    (t : ℕ) (rows : List ReceiveRecord)
    → count_from paid_at t (map (λ (row : ReceiveRecord). received_payment row false) rows)
      ≡ count_from received_at t rows
unfolding received_payment
count_received t [] = refl
count_received t (row ∷ rows) = ground (arith, count_received t rows)

count_sent :
    (t : ℕ) (rows : List SendRecord)
    → count_from paid_at t (map (λ (row : SendRecord). sent_payment row false) rows)
      ≡ count_from sent_at t rows
unfolding sent_payment
count_sent t [] = refl
count_sent t (row ∷ rows) = ground (arith, count_sent t rows)

-- The payments of a user, each as it is shown to the user.
abbrev payments_received : String → List ReceiveRecord → List Payment
payments_received u [] = []
payments_received u (row ∷ rows) =
    let rest = payments_received u rows in
    if row.user_pk == u then received_payment row false ∷ rest else rest

abbrev payments_sent : String → List SendRecord → List Payment
payments_sent u [] = []
payments_sent u (row ∷ rows) =
    let rest = payments_sent u rows in
    if row.user_pk == u then sent_payment row false ∷ rest else rest

abbrev pub all_payments : Tables → String → List Payment
all_payments db u = payments_received u db.receives ++ payments_sent u db.sends

count-received :
    (test : Payment → Bool) (u : String) (rows : List ReceiveRecord)
    → count
        (λ (row : ReceiveRecord). test (received_payment row false))
        (filter (λ (row : ReceiveRecord). row.user_pk == u) rows)
      ≡ count test (payments_received u rows)
count-received test u [] = refl
count-received test u (row ∷ rows) = ground (arith, count-received test u rows)

count-sent :
    (test : Payment → Bool) (u : String) (rows : List SendRecord)
    → count
        (λ (row : SendRecord). test (sent_payment row false))
        (filter (λ (row : SendRecord). row.user_pk == u) rows)
      ≡ count test (payments_sent u rows)
count-sent test u [] = refl
count-sent test u (row ∷ rows) = ground (arith, count-sent test u rows)

since_received :
    (t : ℕ) (u : String) (rows : List ReceiveRecord)
    → count_from received_at t (filter (λ (row : ReceiveRecord). row.user_pk == u) rows)
      ≡ count_from paid_at t (payments_received u rows)
unfolding received_payment
since_received t u [] = refl
since_received t u (row ∷ rows) = ground (arith, since_received t u rows)

since_sent :
    (t : ℕ) (u : String) (rows : List SendRecord)
    → count_from sent_at t (filter (λ (row : SendRecord). row.user_pk == u) rows)
      ≡ count_from paid_at t (payments_sent u rows)
unfolding sent_payment
since_sent t u [] = refl
since_sent t u (row ∷ rows) = ground (arith, since_sent t u rows)

module _ (db : Tables) (u : String) where
  receive_payments-count :
      (test : Payment → Bool)
      → count test (receive_payments db u) ≤ count test (payments_received u db.receives)
  receive_payments-count test =
      let f : ReceiveRecord → Payment = λ row. received_payment row false in
      let test' : ReceiveRecord → Bool = λ row. test (f row) in
      omega (
        arith,
        count-map test f (take 50 (order_desc received_at (own_receives db u))),
        count-take test' 50 (order_desc received_at (own_receives db u)),
        count-order_desc test' received_at (own_receives db u),
        count-received test u db.receives,
      )

  send_payments-count :
      (test : Payment → Bool)
      → count test (send_payments db u) ≤ count test (payments_sent u db.sends)
  send_payments-count test =
      let f : SendRecord → Payment = λ row. sent_payment row false in
      let test' : SendRecord → Bool = λ row. test (f row) in
      omega (
        arith,
        count-map test f (take 50 (order_desc sent_at (own_sends db u))),
        count-take test' 50 (order_desc sent_at (own_sends db u)),
        count-order_desc test' sent_at (own_sends db u),
        count-sent test u db.sends,
      )

  user_payments-count :
      (test : Payment → Bool) → count test (user_payments db u) ≤ count test (all_payments db u)
  unfolding user_payments
  user_payments-count test =
      let payments = receive_payments db u ++ send_payments db u in
      let sorted = sort_by_key paid_at payments in
      omega (
        arith,
        count-drop test (length sorted - 50) sorted,
        count-sort_by_key test paid_at payments,
        count-append test (receive_payments db u) (send_payments db u),
        receive_payments-count test,
        send_payments-count test,
        count-append test (payments_received u db.receives) (payments_sent u db.sends),
      )

  -- The history of a user is in ascending order of time. It holds nothing but the payments of this
  -- user, each with all that is shown of it and no more often than it was made: whatever one asks of
  -- a payment, no more payments of the history meet it than of all that the user received and sent.
  -- For every time t it holds as many payments from t on as the user has, but no more than 50: so it
  -- is the newest 50 payments.
  pub user_payments_newest :
      IsAscending paid_at (user_payments db u)
      × ((test : Payment → Bool) → count test (user_payments db u) ≤ count test (all_payments db u))
      × ((t : ℕ)
          → count_from paid_at t (user_payments db u)
            ≡ min 50 (count_from paid_at t (all_payments db u)))
  unfolding user_payments
  user_payments_newest =
      let payments = receive_payments db u ++ send_payments db u in
      (
        drop-IsAscending paid_at _ _ (sort_by_key-IsAscending paid_at payments),
        user_payments-count,
        λ t. omega (
          arith,
          count_from-last paid_at t 50 payments,
          count_from-append paid_at t (receive_payments db u) (send_payments db u),
          count_received t (take 50 (order_desc received_at (own_receives db u))),
          count_sent t (take 50 (order_desc sent_at (own_sends db u))),
          count_from-newest received_at t 50 (own_receives db u),
          count_from-newest sent_at t 50 (own_sends db u),
          since_received t u db.receives,
          since_sent t u db.sends,
          count_from-append paid_at t (payments_received u db.receives) (payments_sent u db.sends),
        ),
      )

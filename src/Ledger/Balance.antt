-- ===== src/Ledger/Balance.antt =====
-- What a balance is: the receipts of a user less what the user has spent.
use puncture.Common.{
  ℕ, ◌+◌, ◌-◌, ◌%◌, ◌≤◌, ◌<◌, String, ◌≡◌, refl, List, [], ◌∷◌, ◌++◌, map, arith, not, filter, ◌==◌,
  if◌then◌else◌,
}
use puncture.Common.Words.{
  word64, sign64, add64, total, sum64_lem, saturating_sub-nonneg, saturating_sub-negative,
}
use puncture.Models.{ReceiveRecord, SendRecord, Tables}
use puncture.Ledger.{receive_sum, send_sum, user_balance}

-- The receipts of a user, with no wrap-around.
abbrev pub received : String → List ReceiveRecord → ℕ
received u [] = 0
received u (r ∷ rows) = (if r.user_pk == u then r.amount_msat else 0) + received u rows

-- What one send takes from its sender: amount and fee, unless it failed.
abbrev pub cost : SendRecord → ℕ
cost s = if s.status == "failed" then 0 else s.amount_msat + s.fee_msat

-- What a user has spent, with no wrap-around.
abbrev pub spent : String → List SendRecord → ℕ
spent u [] = 0
spent u (s ∷ rows) = (if s.user_pk == u then cost s else 0) + spent u rows

receive_total :
    (u : String) (rows : List ReceiveRecord)
    → total (map (λ (r : ReceiveRecord). r.amount_msat) (filter (λ r. r.user_pk == u) rows))
      ≡ received u rows
receive_total u [] = refl
receive_total u (r ∷ rows) = ground (arith, receive_total u rows)

send_total :
    (u : String) (rows : List SendRecord)
    → total (
          map
            (λ (s : SendRecord). add64 s.amount_msat s.fee_msat)
            (filter (λ s. not (s.status == "failed")) (filter (λ s. s.user_pk == u) rows)))
        % word64
      ≡ spent u rows % word64
send_total u [] = refl
send_total u (s ∷ rows) = ground (arith, send_total u rows)

pub receive_sum-eq-received :
    (u : String) (rows : List ReceiveRecord) → receive_sum u rows ≡ received u rows % word64
unfolding receive_sum
receive_sum-eq-received u rows = rw (sum64_lem, receive_total u rows)

pub send_sum-eq-spent :
    (u : String) (rows : List SendRecord) → send_sum u rows ≡ spent u rows % word64
unfolding send_sum
send_sum-eq-spent u rows = rw sum64_lem (send_total u rows)

-- The balance of a user who has not spent more than was received is the difference.
pub user_balance_lem :
    (db : Tables) (u : String)
    → received u db.receives < sign64
    → spent u db.sends ≤ received u db.receives
    → user_balance db u ≡ received u db.receives - spent u db.sends
unfolding user_balance
user_balance_lem db u fits covered =
    rw (receive_sum-eq-received, send_sum-eq-spent)
      (omega (
        arith,
        saturating_sub-nonneg (received u db.receives % word64) (spent u db.sends % word64)
            (omega arith) (omega arith),
      ))

-- Nobody has spent more than was received.
abbrev pub IsSolvent : Tables → Type 0
IsSolvent db = (u : String) → spent u db.sends ≤ received u db.receives

-- The receipts of each user, over all time, stay below 2 ^ 63 millisatoshis.
abbrev pub Fits : Tables → Type 0
Fits db = (u : String) → received u db.receives < sign64

pub received-append :
    (u : String) (r : ReceiveRecord) (rows : List ReceiveRecord)
    → received u (rows ++ r ∷ []) ≡ received u rows + (if r.user_pk == u then r.amount_msat else 0)
received-append u r [] = omega arith
received-append u r (x ∷ rows) = omega (arith, received-append u r rows)

pub spent-append :
    (u : String) (s : SendRecord) (rows : List SendRecord)
    → spent u (rows ++ s ∷ []) ≡ spent u rows + (if s.user_pk == u then cost s else 0)
spent-append u s [] = omega arith
spent-append u s (x ∷ rows) = omega (arith, spent-append u s rows)

-- A user who has spent more than was received is shown a balance near 2 ^ 64.
pub user_balance-overdrawn :
    (db : Tables) (u : String)
    → spent u db.sends < sign64
    → received u db.receives < spent u db.sends
    → user_balance db u ≡ word64 - (spent u db.sends - received u db.receives)
unfolding user_balance
user_balance-overdrawn db u fits over =
    rw (receive_sum-eq-received, send_sum-eq-spent)
      (omega (
        arith,
        saturating_sub-negative (received u db.receives % word64) (spent u db.sends % word64)
            (omega arith) (omega arith),
      ))

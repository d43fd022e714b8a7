-- ===== src/Rpc/Effects/Accepts.antt =====
-- When `check_send` accepts a payment, and with which fee.
use puncture.Common.{ℕ, ◌+◌, ◌*◌, ◌/◌, ◌^◌, ◌≤◌, ◌<◌, String, ◌≡◌, ◌↔◌, arith}
use puncture.Common.Outcome.{ok}
use puncture.Models.{Tables}
use puncture.Ledger.Balance.{received, spent, user_balance_lem}
use puncture.ClientDb.{count_pending_sends}
use puncture.Handler.{Args}
use puncture.Rpc.Checks.{check_send}

-- `check_send` accepts exactly the payments of a user with fewer pending sends than the limit, whose
-- amount is within the bounds, and where receipts cover what was spent, the amount and the fee; the
-- fee is the rate in parts per million, rounded down, and the base fee. This holds where the product
-- of amount and rate fits 64 bits, the bounds fit 32 bits, the base fee is below 2 ^ 62, and the
-- user's receipts cover the spending and stay below 2 ^ 63.
pub check_send_iff :
    (args : Args) (u : String) (amount fee : ℕ) (db : Tables)
    → amount * args.fee_ppm < 2 ^ 64
    → args.base_fee_msat < 2 ^ 62
    → args.min_amount_sats < 2 ^ 32
    → args.max_amount_sats < 2 ^ 32
    → received u db.receives < 2 ^ 63
    → spent u db.sends ≤ received u db.receives
    → (check_send args u amount db ≡ ok fee) ↔ (
        (count_pending_sends db u < args.max_pending_payments_per_user)
        × (args.min_amount_sats * 1000 ≤ amount)
        × (amount ≤ args.max_amount_sats * 1000)
        × (spent u db.sends + amount + fee ≤ received u db.receives)
        × (fee ≡ amount * args.fee_ppm / 1000000 + args.base_fee_msat))
unfolding check_send
check_send_iff args u amount fee db product base low high fits covered = (
  λ accepted. ground (arith, user_balance_lem db u fits covered),
  λ conditions. ground (arith, user_balance_lem db u fits covered),
)

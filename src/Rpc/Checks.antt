-- ===== src/Rpc/Checks.antt =====
-- The checks of an amount (`check_send`, `check_amount_bounds`), and what passing them means.
use puncture.Common.{ℕ, ◌/◌, String, ltb, leb}
use puncture.Common.Outcome.{Outcome, ok, ◌>>◌, fail_if}
use puncture.Common.Words.{add64, mul64}
use puncture.Common.Text.{◌<>◌, decimal}
use puncture.Models.{Tables}
use puncture.Ledger
use puncture.ClientDb
use puncture.Handler.{Args}

unfoldable pub check_amount_bounds : Args → ℕ → Outcome (Unit {0})
check_amount_bounds args amount_msat = do
  fail_if (ltb amount_msat (mul64 args.min_amount_sats 1000))
      ("The minimum amount is " <> decimal args.min_amount_sats <> " sats")
  fail_if (ltb (mul64 args.max_amount_sats 1000) amount_msat)
      ("The maximum amount is " <> decimal args.max_amount_sats <> " sats")
  ok tt

unfoldable pub fee_of : Args → ℕ → ℕ
fee_of args amount_msat = add64 (mul64 amount_msat args.fee_ppm / 1000000) args.base_fee_msat

unfoldable pub check_send : Args → String → ℕ → Tables → Outcome ℕ
unfolding check_amount_bounds fee_of
check_send args user_pk amount_msat db = do
  fail_if (leb args.max_pending_payments_per_user (ClientDb.count_pending_sends db user_pk))
      "Too many pending payments"
  check_amount_bounds args amount_msat
  let balance_msat = Ledger.user_balance db user_pk
  fail_if (ltb balance_msat amount_msat) "Insufficient balance to cover the amount"
  let fee_msat = fee_of args amount_msat
  fail_if (ltb balance_msat (add64 amount_msat fee_msat))
      "Insufficient balance to cover the amount and potential fee"
  ok fee_msat

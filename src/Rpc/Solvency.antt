-- ===== src/Rpc/Solvency.antt =====
-- No request overdraws a user: what each user has spent stays covered by what was received.
pub mod Onchain
pub mod Sends
pub mod Recovery
pub mod Others
use mathlib.Core.Path.{subst}
use puncture.Common.{
  ℕ, ◌+◌, ◌-◌, ◌*◌, ◌/◌, ◌%◌, ◌^◌, ◌≤◌, ◌<◌, String, ◌≡◌, refl, eq_iff, Option, some, none, arith,
  ◌==◌, if◌then◌else◌,
}
use puncture.Common.Outcome.{Outcome, ok, err, panic}
use puncture.Common.Words.{sign64, mul64, add64}
use puncture.Models.{SendRecord, ReceiveRecord, Tables}
use puncture.Ledger.{user_balance}
use puncture.Ledger.Balance.{received, spent, IsSolvent, Fits, user_balance_lem}
use puncture.Ledger.Status.{DistinctIds}
use puncture.ClientDb.{create_internal_transfer, create_send_payment}
use puncture.ClientDb.Inserts.{
  create_internal_transfer_lem, create_internal_transfer-DistinctIds, create_send_payment_lem,
  create_send_payment-DistinctIds,
}
use puncture.Handler.{Args, Env, World, M}
use puncture.Handler.Keeps.{tables_after}
use puncture.Rpc.Checks.{check_amount_bounds, fee_of, check_send}

-- The fees of the daemon are at least what a transfer inside the daemon costs, and no fee is near
-- the size of a word. The defaults are 10_000 and 5_000_000.
pub record IsSane (args : Args) : Type 0 where
  pub fee_low : 1000 ≤ args.base_fee_msat
  pub fee_high : args.base_fee_msat < 2 ^ 62
  pub onchain_high : args.onchain_base_fee_msat < 2 ^ 62

module _ (args : Args) (u : String) (amount : ℕ) (db : Tables) {fee : ℕ} where
  -- A payment that passes the checks is covered, with its fee.
  pub check_send-covers :
      received u db.receives < sign64
      → spent u db.sends ≤ received u db.receives
      → IsSane args
      → check_send args u amount db ≡ ok fee
      → (spent u db.sends + amount + fee ≤ received u db.receives) × (args.base_fee_msat ≤ fee)
  unfolding check_send
  check_send-covers fits covered sane h = ground (arith, user_balance_lem db u fits covered)

-- Nobody is overdrawn, and the ids of the sends are distinct.
pub record IsSound (db : Tables) : Type 0 where
  pub solvent : (u : String) → spent u db.sends ≤ received u db.receives
  pub distinct : DistinctIds db.sends

module _ (now : ℕ) (id from : String) (amount fee : ℕ) (db : Tables) (sound : IsSound db)
    (covered : spent from db.sends + amount + fee ≤ received from db.receives) where
  pub create_internal_transfer-IsSound :
      (to pr description : String)
      → IsSound
          (tables_after (create_internal_transfer now id from to amount fee pr description db) db)
  create_internal_transfer-IsSound to pr description =
      go (create_internal_transfer now id from to amount fee pr description db) refl
    where
      go :
          (r : Outcome ((SendRecord × ReceiveRecord) × Tables))
          → create_internal_transfer now id from to amount fee pr description db ≡ r
          → IsSound (tables_after r db)
      go (ok (rows, db')) e = record {
        solvent = λ u. ground (
          arith,
          create_internal_transfer_lem now id from amount fee to pr description db e u,
          sound.solvent u,
          eq_iff from u,
        );
        distinct =
            create_internal_transfer-DistinctIds now id from amount fee to pr description db e
              sound.distinct;
      }
      go (err m) e = sound
      go (panic m) e = sound

  pub create_send_payment-IsSound :
      (description pr status : String) (ln_address : Option String)
      → IsSound (
          tables_after
            (create_send_payment now id from amount fee description pr status ln_address db)
            db)
  create_send_payment-IsSound description pr status ln_address =
      go (create_send_payment now id from amount fee description pr status ln_address db) refl
    where
      go :
          (r : Outcome (SendRecord × Tables))
          → create_send_payment now id from amount fee description pr status ln_address db ≡ r
          → IsSound (tables_after r db)
      go (ok (row, db')) e = record {
        solvent = λ u. ground (
          arith,
          create_send_payment_lem now id from amount fee description pr status ln_address db e u,
          sound.solvent u,
          eq_iff from u,
        );
        distinct =
            create_send_payment-DistinctIds now id from amount fee description pr status ln_address
              db e sound.distinct;
      }
      go (err m) e = sound
      go (panic m) e = sound

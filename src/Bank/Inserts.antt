-- ===== src/Bank/Inserts.antt =====
-- The inserts of `ClientDb` as moves between accounts.
use puncture.Common.{ℕ, ◌+◌, ◌≤◌, String, ◌≡◌, refl, Option, arith, ◌==◌, eq_iff, false}
use puncture.Common.Outcome.{Outcome, ok, err, panic}
use puncture.Models.{SendRecord, ReceiveRecord, Tables}
use puncture.ClientDb.{create_internal_transfer, create_send_payment}
use puncture.ClientDb.Inserts.{create_internal_transfer_lem, create_send_payment_lem}
use puncture.Handler.Keeps.{tables_after}
use puncture.Rpc.Solvency.{IsSound}
use puncture.Rpc.Solvency.Others.{SameLedger}
use puncture.Bank.{accounts, Same, Moves}

pub SameLedger-Same : (db' db : Tables) → SameLedger db' db → Same (accounts db) (accounts db')
SameLedger-Same db' db same v = rw (same.0, same.1) refl

module _ (now : ℕ) (id from : String) (amount fee : ℕ) (db : Tables) (sound : IsSound db)
    (covered : amount + fee ≤ accounts db from) where
  -- What holds after a transfer that moves the amount and costs the fee, and if it is not stored,
  -- holds after it.
  pub create_internal_transfer_rule :
      (P : Tables → Type 0) (to pr description : String)
      → P db
      → ((db' : Tables) → Moves from (amount + fee) to amount (accounts db) (accounts db') → P db')
      → P (tables_after (create_internal_transfer now id from to amount fee pr description db) db)
  create_internal_transfer_rule P to pr description before after =
      go (create_internal_transfer now id from to amount fee pr description db) refl
    where
      go :
          (r : Outcome ((SendRecord × ReceiveRecord) × Tables))
          → create_internal_transfer now id from to amount fee pr description db ≡ r
          → P (tables_after r db)
      go (ok (rows, db')) e = after db' λ v. ground (
        arith,
        create_internal_transfer_lem now id from amount fee to pr description db e v,
        sound.solvent v,
        eq_iff from v,
      )
      go (err m) e = before
      go (panic m) e = before

  -- The same for a payment by the node, which takes the amount and the fee.
  pub create_send_payment_rule :
      (P : Tables → Type 0) (description pr status : String) (ln_address : Option String)
      → (status == "failed") ≡ false
      → P db
      → ((db' : Tables) → Moves from (amount + fee) from 0 (accounts db) (accounts db') → P db')
      → P (
          tables_after
            (create_send_payment now id from amount fee description pr status ln_address db)
            db)
  create_send_payment_rule P description pr status ln_address live before after =
      go (create_send_payment now id from amount fee description pr status ln_address db) refl
    where
      go :
          (r : Outcome (SendRecord × Tables))
          → create_send_payment now id from amount fee description pr status ln_address db ≡ r
          → P (tables_after r db)
      go (ok (row, db')) e = after db' λ v. ground (
        arith,
        create_send_payment_lem now id from amount fee description pr status ln_address db e v,
        sound.solvent v,
        eq_iff from v,
      )
      go (err m) e = before
      go (panic m) e = before

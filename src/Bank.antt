-- ===== src/Bank.antt =====
-- What the daemon promises about money, with no tables: an account for each user, and the moves
-- that change the accounts.
pub mod Inserts
pub mod Requests
pub mod Events
pub mod Refines
use puncture.Common.{ℕ, ◌+◌, ◌-◌, ◌≤◌, String, ◌≡◌, ◌==◌, if◌then◌else◌, Option, none, some, find}
use puncture.Models.{RecoveryRecord, Tables}
use puncture.Ledger.Balance.{received, spent}

abbrev pub Accounts : Type 0
Accounts = String → ℕ

-- The accounts that the tables stand for.
abbrev pub accounts : Tables → Accounts
accounts db u = received u db.receives - spent u db.sends

-- The user whom the recovery with an id is for.
abbrev pub claims : Tables → String → Option String
claims db id = elim (find (λ (r : RecoveryRecord). r.id == id) db.recoveries) [
  | none ↦ none
  | some r ↦ some r.user_pk
]

-- Who moves money: a user, whose request may present the id of a recovery, the reports of the node, or
-- nobody else.
pub data Actor : Type 0 where
  client : String → Option String → Actor
  node : Actor
  operator : Actor

-- Nothing moves.
abbrev pub Same : Accounts → Accounts → Type 0
Same a b = (v : String) → b v ≡ a v

-- One account pays and one is paid; they may be the same.
abbrev pub Moves : String → ℕ → String → ℕ → Accounts → Accounts → Type 0
Moves from debit to credit a b =
    (v : String) → b v + (if from == v then debit else 0) ≡ a v + (if to == v then credit else 0)

-- The moves of an actor, where the users that the recoveries are for are given. A user pays another for
-- a fee of one satoshi, pays out of the daemon, or presents the id of a recovery and collects the
-- whole account that this recovery is for; only the node brings money in, and it may charge a payment
-- that cost more than was set aside.
pub data Move (recoveries : String → Option String) (a b : Accounts) : Actor → Type 0 where
  stay : {who : Actor} → Same a b → Move recoveries a b who
  pay :
      {u : String} {presented : Option String} (to : String) (amount : ℕ)
      → amount + 1000 ≤ a u
      → Moves u (amount + 1000) to amount a b
      → Move recoveries a b (Actor.client u presented)
  pay_out :
      {u : String} {presented : Option String} (amount : ℕ)
      → amount ≤ a u
      → Moves u amount u 0 a b
      → Move recoveries a b (Actor.client u presented)
  collect :
      {u : String} (id from : String)
      → recoveries id ≡ some from
      → Moves from (a from) u (a from) a b
      → Move recoveries a b (Actor.client u (some id))
  pay_in : (to : String) (amount : ℕ) → Moves to 0 to amount a b → Move recoveries a b Actor.node
  charge :
      (from : String) (amount : ℕ)
      → amount ≤ a from
      → Moves from amount from 0 a b
      → Move recoveries a b Actor.node

-- ===== src/Admin/CliDb.antt =====
-- puncture-daemon/src/cli/db.rs
use puncture.Common.{ℕ, ◌+◌, ◌*◌, String, Bool, Option, List, map, any, ◌==◌}
use puncture.Common.Outcome.{Outcome, ok, ◌>>=◌, expect}
use puncture.Models.{User, InviteRecord, RecoveryRecord, Tables, insert_row}
use puncture.Ledger.{user_balance}

pub record UserInfo : Type 0 where
  pub user_pk : String
  pub balance_msat : ℕ
  pub recovery_name : Option String
  pub created_at : ℕ

-- The row of an invite, and of a recovery.
abbrev pub invite_row : ℕ → String → ℕ → ℕ → InviteRecord
invite_row now invite_id user_limit expiry_secs = record {
  id = invite_id;
  user_limit = user_limit;
  expires_at = now + expiry_secs * 1000;
  created_at = now;
}

abbrev pub recovery_row : ℕ → String → String → ℕ → RecoveryRecord
recovery_row now recovery_id user_pk expiry_secs = record {
  id = recovery_id;
  user_pk = user_pk;
  expires_at = now + expiry_secs * 1000;
  created_at = now;
}

unfoldable pub create_invite : ℕ → String → ℕ → ℕ → Tables → Outcome (Unit {0} × Tables)
create_invite now invite_id user_limit expiry_secs db = do
  rows ←
      expect (insert_row (λ r. r.id) (invite_row now invite_id user_limit expiry_secs) db.invites)
        "Failed to create invite"
  ok (tt, record db { invites = rows })

unfoldable pub create_recovery : ℕ → String → String → ℕ → Tables → Outcome (Unit {0} × Tables)
create_recovery now recovery_id user_pk expiry_secs db = do
  rows ←
      expect
        (insert_row (λ r. r.id) (recovery_row now recovery_id user_pk expiry_secs) db.recoveries)
        "Failed to create recovery"
  ok (tt, record db { recoveries = rows })

unfoldable pub user_exists : Tables → String → Bool
user_exists db user_pk = any (λ row. row.user_pk == user_pk) db.users

unfoldable pub list_users : Tables → List UserInfo
list_users db =
    map
      (λ (row : User). record {
        user_pk = row.user_pk;
        balance_msat = user_balance db row.user_pk;
        recovery_name = row.recovery_name;
        created_at = row.created_at;
      })
      db.users

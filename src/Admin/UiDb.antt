-- ===== src/Admin/UiDb.antt =====
-- puncture-daemon/src/ui/db.rs: the queries of the dashboard, which also return the new rows.
use puncture.Common.{ℕ, String, Bool, List, map, any, ◌==◌}
use puncture.Common.Outcome.{Outcome, ok, ◌>>=◌, expect}
use puncture.Models.{User, InviteRecord, RecoveryRecord, Tables, insert_row}
use puncture.Ledger.{user_balance}
use puncture.Admin.CliDb.{UserInfo, invite_row, recovery_row}

unfoldable pub create_invite : ℕ → String → ℕ → ℕ → Tables → Outcome (InviteRecord × Tables)
create_invite now invite_id user_limit expiry_secs db =
    let new_invite = invite_row now invite_id user_limit expiry_secs in
    do
      rows ← expect (insert_row (λ r. r.id) new_invite db.invites) "Failed to create invite"
      ok (new_invite, record db { invites = rows })

unfoldable pub list_users : Tables → List UserInfo
list_users db =
    map
      (λ (row : User). record {
        user_pk = row.user_pk;
        balance_msat = user_balance db row.user_pk;
        recovery_name = row.recovery_name;
        created_at = row.created_at;
      })
      db.users

unfoldable pub user_exists : Tables → String → Bool
user_exists db user_pk = any (λ row. row.user_pk == user_pk) db.users

unfoldable pub create_recovery :
    ℕ → String → String → ℕ → Tables → Outcome (RecoveryRecord × Tables)
create_recovery now recovery_id user_pk expiry_secs db =
    let new_recovery = recovery_row now recovery_id user_pk expiry_secs in
    do
      rows ← expect (insert_row (λ r. r.id) new_recovery db.recoveries) "Failed to create recovery"
      ok (new_recovery, record db { recoveries = rows })

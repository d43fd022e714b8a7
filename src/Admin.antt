-- ===== src/Admin.antt =====
-- The administration of users: puncture-daemon/src/cli/rpc.rs (`user_…`) and the form handlers of
-- puncture-daemon/src/ui/users.rs.
pub mod CliDb
pub mod UiDb
pub mod Ledger
pub mod Invites
use puncture.Common.{ℕ, ◌*◌, String, Bool, Option, none, some, List, not, if◌then◌else◌}
use puncture.Common.Outcome.{ok}
use puncture.Common.Words.{mul32}
use puncture.Handler.{M, ◌>>=◌, ◌>>◌, pure, lift, reads, writes}
use puncture.Admin.CliDb.{UserInfo}
use puncture.Codes.{PunctureCode, Encoding, invite, recovery, encode}

-- `Result<Json<A>, CliError>`; an error has its HTTP status.
pub data CliResult (A : Type 0) : Type 0 where
  json : A → CliResult A
  cli_error : ℕ → String → CliResult A

abbrev bad_request : {A : Type 0} → String → CliResult A
bad_request error = CliResult.cli_error 400 error

pub record InviteRequest : Type 0 where
  pub expiry_days : ℕ
  pub user_limit : ℕ

pub record RecoverUserRequest : Type 0 where
  pub user_pk : String
  pub expiry_days : ℕ

-- `now` is the time, `id` the drawn id in hex, `node_id` the id of this daemon.
module _ (codec : Encoding) (now : ℕ) (id node_id : String) where
  -- The product wraps around at 32 bits.
  unfoldable pub user_invite : InviteRequest → M (CliResult String)
  user_invite request = do
    writes (
        CliDb.create_invite now id request.user_limit
          (mul32 (mul32 (mul32 request.expiry_days 60) 60) 24))
    pure (CliResult.json (encode codec (invite id node_id)))

  abbrev after_check : String → Bool → M (CliResult String)
  after_check user_pk exists = if not exists then pure (bad_request "User does not exist") else do
    writes (CliDb.create_recovery now id user_pk (60 * 60 * 24))
    pure (CliResult.json (encode codec (recovery id)))

  -- The request's `expiry_days` is not read: a recovery code is valid for one day.
  unfoldable pub user_recover : RecoverUserRequest → M (CliResult String)
  user_recover request = do
    exists ← reads (λ db. ok (CliDb.user_exists db request.user_pk))
    after_check request.user_pk exists

  -- `invite_submit`: the code that the page shows.
  unfoldable pub invite_submit : InviteRequest → M String
  invite_submit form = do
    writes (
        UiDb.create_invite now id form.user_limit (mul32 (mul32 (mul32 form.expiry_days 24) 60) 60))
    pure (encode codec (invite id node_id))

  abbrev after_lookup : String → Bool → M (Option String)
  after_lookup user_pk exists = if not exists then pure none else do
    writes (UiDb.create_recovery now id user_pk (24 * 60 * 60))
    pure (some (encode codec (recovery id)))

  -- `recovery_submit`: the code, for a user that exists.
  unfoldable pub recovery_submit : String → M (Option String)
  recovery_submit user_pk = do
    exists ← reads (λ db. ok (UiDb.user_exists db user_pk))
    after_lookup user_pk exists

unfoldable pub user_list : M (CliResult (List UserInfo))
user_list = do users ← reads (λ db. ok (CliDb.list_users db)); pure (CliResult.json users)

-- ===== src/Admin/Ledger.antt =====
-- The administration of users moves no money.
use puncture.Common.{ℕ, String, arith}
use puncture.Handler.{World}
use puncture.Codes.{Encoding}
use puncture.Rpc.Solvency.Others.{SameLedger}
use puncture.Admin.CliDb
use puncture.Admin.UiDb
use puncture.Admin.{
  InviteRequest, RecoverUserRequest, user_invite, user_recover, invite_submit, recovery_submit,
}

module _ (codec : Encoding) (now : ℕ) (id node_id : String) (w : World) where
  pub user_invite-SameLedger :
      (r : InviteRequest) → SameLedger (user_invite codec now id node_id r w).1.db w.db
  unfolding user_invite CliDb.create_invite
  user_invite-SameLedger r = ground arith

  pub user_recover-SameLedger :
      (r : RecoverUserRequest) → SameLedger (user_recover codec now id node_id r w).1.db w.db
  unfolding user_recover CliDb.create_recovery
  user_recover-SameLedger r = ground arith

  pub invite_submit-SameLedger :
      (r : InviteRequest) → SameLedger (invite_submit codec now id node_id r w).1.db w.db
  unfolding invite_submit UiDb.create_invite
  invite_submit-SameLedger r = ground arith

  pub recovery_submit-SameLedger :
      (u : String) → SameLedger (recovery_submit codec now id node_id u w).1.db w.db
  unfolding recovery_submit UiDb.create_recovery
  recovery_submit-SameLedger u = ground arith

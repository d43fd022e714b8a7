-- ===== src/Rpc/Account.antt =====
-- Registration with an invite, the recovery name, and recovery of a balance.
use Prim.Native.Char.{Char, code}
use Prim.Native.String.{len}
use puncture.Common.{
  ℕ, String, Bool, true, not, ◌&&◌, ◌||◌, Option, none, some, ltb, leb, ◌==◌, if◌then◌else◌,
}
use puncture.Common.Outcome.{Outcome, ok, err, ok_or, fail_if}
use puncture.ClientCore.{RegisterRequest, RegisterResponse, SetRecoveryNameRequest, RecoverRequest}
use puncture.Convert.{received_payment, sent_payment}
use puncture.Ledger
use puncture.ClientDb
use puncture.Handler.{Env, M, ◌>>=◌, ◌>>◌, pure, lift, reads, writes}
use puncture.Rpc.Actions.{update_tables, push_events}

unfoldable pub register : Env → String → RegisterRequest → M RegisterResponse
register env user_pk request = do
  invite ← reads (λ db. ok_or (ClientDb.get_invite db request.invite_id) "Unknown invite code")
  lift (fail_if (ltb invite.expires_at env.now) "Invite expired")
  users ← reads (λ db. ok (ClientDb.count_invite_users db request.invite_id))
  lift (fail_if (leb invite.user_limit users) "Invite user limit reached")
  update_tables (ClientDb.register_user_with_invite env.now user_pk request.invite_id)
  pure (record { network = env.args.bitcoin_network; name = env.args.daemon_name })

-- `char::is_ascii_alphabetic` and `char::is_ascii_whitespace`, by code point.
abbrev is_ascii_alphabetic : ℕ → Bool
is_ascii_alphabetic c = (leb b'A' c && leb c b'Z') || (leb b'a' c && leb c b'z')

abbrev is_ascii_whitespace : ℕ → Bool
is_ascii_whitespace c = leb c 10 && leb 9 c || leb c 13 && leb 12 c || leb c 32 && leb 32 c

abbrev pub is_name_char : Char → Bool
is_name_char c = is_ascii_alphabetic (code c) || is_ascii_whitespace (code c)

-- `name.chars().all(…)`
pub all_chars : (Char → Bool) → String → Bool
all_chars p String.[] = true
all_chars p (String.◌∷◌ c s) = p c && all_chars p s

unfoldable pub check_recovery_name : Option String → Outcome (Unit {0})
unfolding all_chars
check_recovery_name none = ok tt
check_recovery_name (some name) =
    if leb (len name) 0
    then err "Recovery name cannot be empty"
    else if ltb 20 (len name)
    then err "Recovery name must be less than 20 characters"
    else if not (all_chars is_name_char name)
    then err "Recovery name can only contain letters and spaces"
    else ok tt

unfoldable pub set_recovery_name : Env → String → SetRecoveryNameRequest → M (Unit {0})
unfolding check_recovery_name
set_recovery_name env user_pk request = do
  lift (check_recovery_name request.recovery_name)
  update_tables (ClientDb.set_recovery_name user_pk request.recovery_name)

unfoldable pub recover : Env → String → RecoverRequest → M ℕ
recover env user_pk request = do
  recovery ←
      reads (λ db. ok_or (ClientDb.get_recovery db request.recovery_id) "Unknown recovery code")
  lift (fail_if (ltb recovery.expires_at env.now) "Recovery expired")
  lift (fail_if (user_pk == recovery.user_pk) "You cannot recover the current user")
  balance_msat ← reads (λ db. ok (Ledger.user_balance db recovery.user_pk))
  lift (fail_if (leb balance_msat 0) "User has no balance to recover")
  rows ← writes (
      ClientDb.create_internal_transfer env.now env.transfer_id recovery.user_pk user_pk
        balance_msat 0 recovery.id "Recovery")
  push_events recovery.user_pk (sent_payment rows.0 true)
  push_events user_pk (received_payment rows.1 true)
  pure balance_msat

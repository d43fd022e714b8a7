-- ===== src/Dashboard/Codes.antt =====
-- puncture-daemon/src/ui/users.rs: what `invite_submit` and `recovery_submit` answer as markup.
use puncture.Common.{ℕ, String, Option, none, some}
use puncture.Common.Outcome.{Outcome, ok, err, panic}
use puncture.Handler.{M, ◌>>=◌, pure, lift}
use puncture.Codes.{Encoding}
use puncture.Admin.{InviteRequest, invite_submit, recovery_submit}
use puncture.Html.{Markup, classed}
use puncture.Dashboard.Shared.{qr_code_with_copy, success_replacement}

module _ (qr_svg : String → Option String) (codec : Encoding) (now : ℕ) (id node_id : String) where
  unfoldable pub invite_answer : InviteRequest → M Markup
  invite_answer form = do
    invite ← invite_submit codec now id node_id form
    picture ← lift (qr_code_with_copy qr_svg invite)
    pure (success_replacement "Invite Code Generated" "Share this code with your users:" picture)

  unfoldable pub recovery_shown : Option String → Outcome Markup
  recovery_shown none =
      ok (classed "div" "alert alert-danger" (Markup.escaped "Unknown public key"))
  recovery_shown (some recovery) = elim (qr_code_with_copy qr_svg recovery) [
    | ok picture ↦ ok (
        success_replacement "Recovery Code Generated"
          "Share this code with the user to recover their account:" picture)
    | err e ↦ err e
    | panic e ↦ panic e
  ]

  unfoldable pub recovery_answer : String → M Markup
  recovery_answer user_pk = do
    recovery ← recovery_submit codec now id node_id user_pk
    lift (recovery_shown recovery)

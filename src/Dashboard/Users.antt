-- ===== src/Dashboard/Users.antt =====
-- puncture-daemon/src/ui/users.rs: `users_page` and its template.
pub mod Forms
pub mod Rows
use puncture.Common.{ℕ, String, Bool, true, false, none, some, List, [], ◌∷◌, filter}
use puncture.Common.Sorting.{sort_by}
use puncture.Common.Text.{text_leb}
use puncture.Models.{Tables}
use puncture.Admin.CliDb.{UserInfo}
use puncture.Admin.UiDb.{list_users}
use puncture.Html.{Markup, ◌⋄◌, plain, classed, each}
use puncture.Dashboard.Shared.{base_template}
use Forms.{invite_form}
use Rows.{recovery_name, user_item}

unfoldable pub users_sidebar : Markup
users_sidebar =
    Markup.element "div" (("class", "accordion") ∷ ("id", "usersActionsAccordion") ∷ []) (
      classed "div" "accordion-item" (
        classed "h2" "accordion-header" (
          Markup.element "button"
            (("class", "accordion-button collapsed")
              ∷ ("type", "button")
              ∷ ("data-bs-toggle", "collapse")
              ∷ ("data-bs-target", "#inviteUserCollapse")
              ∷ ("aria-expanded", "false")
              ∷ ("aria-controls", "inviteUserCollapse")
              ∷ [])
            (Markup.escaped "Invite"))
        ⋄ Markup.element "div"
            (("id", "inviteUserCollapse")
              ∷ ("class", "accordion-collapse collapse")
              ∷ ("data-bs-parent", "#usersActionsAccordion")
              ∷ [])
            (classed "div" "accordion-body" invite_form)))

-- `user.recovery_name.is_some()`
abbrev pub has_name : UserInfo → Bool
has_name user = elim user.recovery_name [ none ↦ false | some name ↦ true ]

-- The users with a name, sorted by it.
unfoldable pub named_users : List UserInfo → List UserInfo
named_users users =
    sort_by (λ a b. text_leb (recovery_name a) (recovery_name b)) (filter has_name users)

module _ (format_timestamp : ℕ → String) where
  unfoldable pub users_accordion : List UserInfo → Markup
  users_accordion [] =
      classed "div" "p-4 text-center text-muted"
        (Markup.escaped "No users with recovery names yet.")
  users_accordion (first ∷ others) =
      let users = first ∷ others in
      Markup.element "div" (("class", "accordion") ∷ ("id", "usersAccordion") ∷ [])
        (each (user_item format_timestamp) 0 users)

  unfoldable pub users_template : List UserInfo → Markup
  users_template users = base_template "Users" "/users" (users_accordion users) users_sidebar

  unfoldable pub users_page : Tables → Markup
  users_page db = users_template (named_users (list_users db))

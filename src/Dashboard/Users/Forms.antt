-- ===== src/Dashboard/Users/Forms.antt =====
-- puncture-daemon/src/ui/users.rs: the forms that invite and recover users.
use puncture.Common.{ℕ, String, [], ◌∷◌}
use puncture.Html.{Markup, ◌⋄◌, classed}

unfoldable pub invite_form : Markup
invite_form =
    Markup.element "form"
      (("hx-post", "/users/invite") ∷ ("hx-target", "this") ∷ ("hx-swap", "outerHTML") ∷ [])
      (classed "div" "mb-3" (
          Markup.element "label" (("for", "expiry-days") ∷ ("class", "form-label") ∷ [])
            (Markup.escaped "Expiry (days)")
          ⋄ Markup.element "input"
              (("type", "number")
                ∷ ("class", "form-control")
                ∷ ("id", "expiry-days")
                ∷ ("name", "expiry_days")
                ∷ ("value", "1")
                ∷ ("min", "1")
                ∷ ("max", "365")
                ∷ ("required", "")
                ∷ [])
              Markup.empty)
        ⋄ classed "div" "mb-3" (
            Markup.element "label" (("for", "user-limit") ∷ ("class", "form-label") ∷ [])
              (Markup.escaped "User Limit")
            ⋄ Markup.element "input"
                (("type", "number")
                  ∷ ("class", "form-control")
                  ∷ ("id", "user-limit")
                  ∷ ("name", "user_limit")
                  ∷ ("value", "10")
                  ∷ ("min", "1")
                  ∷ ("max", "1000")
                  ∷ ("required", "")
                  ∷ [])
                Markup.empty)
        ⋄ Markup.element "button"
            (("type", "submit") ∷ ("class", "btn btn-outline-primary w-100") ∷ [])
            (Markup.escaped "Generate Invite Code"))

unfoldable pub recovery_form_for_user : String → ℕ → Markup
recovery_form_for_user user_pk _ =
    Markup.element "form"
      (("hx-post", "/users/recover") ∷ ("hx-target", "this") ∷ ("hx-swap", "outerHTML") ∷ [])
      (Markup.element "input" (("type", "hidden") ∷ ("name", "user_pk") ∷ ("value", user_pk) ∷ [])
          Markup.empty
        ⋄ Markup.element "button"
            (("type", "submit") ∷ ("class", "btn btn-outline-primary w-100") ∷ [])
            (Markup.escaped "Generate Recovery Code"))

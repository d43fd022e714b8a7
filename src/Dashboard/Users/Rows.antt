-- ===== src/Dashboard/Users/Rows.antt =====
-- puncture-daemon/src/ui/users.rs: a user on the page, with its index. The parameter
-- `format_timestamp` is that of shared.rs.
use puncture.Common.{ℕ, ◌/◌, String, none, some, [], ◌∷◌}
use puncture.Common.Text.{◌<>◌, decimal}
use puncture.Admin.CliDb.{UserInfo}
use puncture.Html.{Markup, ◌⋄◌, plain, classed}
use puncture.Dashboard.Sats.{format_sats}
use puncture.Dashboard.Shared.{copyable_hex_input}
use puncture.Dashboard.Users.Forms.{recovery_form_for_user}

-- `recovery_name.as_ref().unwrap()` of a user that the page kept, who has a name.
abbrev pub recovery_name : UserInfo → String
recovery_name user = elim user.recovery_name [ none ↦ "" | some name ↦ name ]

unfoldable pub recovery_accordion : ℕ → UserInfo → Markup
recovery_accordion i user = classed "div" "d-flex justify-content-end" (
    Markup.element "div"
      (("class", "accordion")
        ∷ ("id", ("recoveryAccordion-" <> decimal i))
        ∷ ("style", "width: 300px;")
        ∷ [])
      (classed "div" "accordion-item" (
        classed "h2" "accordion-header" (
          Markup.element "button"
            (("class", "accordion-button collapsed btn-outline-primary")
              ∷ ("type", "button")
              ∷ ("data-bs-toggle", "collapse")
              ∷ ("data-bs-target", ("#recoveryCollapse-" <> decimal i))
              ∷ ("aria-expanded", "false")
              ∷ ("aria-controls", ("recoveryCollapse-" <> decimal i))
              ∷ [])
            (Markup.escaped "Recover"))
        ⋄ Markup.element "div"
            (("id", ("recoveryCollapse-" <> decimal i))
              ∷ ("class", "accordion-collapse collapse")
              ∷ ("data-bs-parent", ("#recoveryAccordion-" <> decimal i))
              ∷ [])
            (classed "div" "accordion-body" (recovery_form_for_user user.user_pk i)))))

module _ (format_timestamp : ℕ → String) where
  unfoldable pub user_table : UserInfo → Markup
  user_table user = classed "table" "table table-sm table-borderless mb-3" (
      plain "tbody" (
        plain "tr" (
          Markup.element "td"
            (("class", "fw-bold") ∷ ("style", "width: 1px; white-space: nowrap;") ∷ [])
            (Markup.escaped "Public Key")
          ⋄ Markup.element "td" (("style", "width: 100%; min-width: 0;") ∷ [])
              (copyable_hex_input user.user_pk none))
        ⋄ plain "tr" (
            classed "td" "fw-bold" (Markup.escaped "Balance")
            ⋄ classed "td" "font-monospace"
                (Markup.escaped (format_sats (user.balance_msat / 1000)) ⋄ Markup.escaped " ₿"))
        ⋄ plain "tr" (
            classed "td" "fw-bold" (Markup.escaped "Created")
            ⋄ classed "td" "text-muted font-monospace"
                (Markup.escaped (format_timestamp user.created_at)))))

  unfoldable pub user_item : ℕ → UserInfo → Markup
  user_item i user = classed "div" "accordion-item" (
      classed "h2" "accordion-header" (
        Markup.element "button"
          (("class", "accordion-button collapsed")
            ∷ ("type", "button")
            ∷ ("data-bs-toggle", "collapse")
            ∷ ("data-bs-target", ("#user-" <> decimal i))
            ∷ ("aria-expanded", "false")
            ∷ ("aria-controls", ("user-" <> decimal i))
            ∷ [])
          (Markup.escaped (recovery_name user)))
      ⋄ Markup.element "div"
          (("id", ("user-" <> decimal i))
            ∷ ("class", "accordion-collapse collapse")
            ∷ ("data-bs-parent", "#usersAccordion")
            ∷ [])
          (classed "div" "accordion-body" ((user_table user) ⋄ (recovery_accordion i user))))

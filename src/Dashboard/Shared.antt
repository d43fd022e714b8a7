-- ===== src/Dashboard/Shared.antt =====
-- puncture-daemon/src/ui/shared.rs: the markup that the pages share. The picture of a code is a
-- parameter: the SVG that the library qrcode renders, with its attributes renamed, or none for a text
-- that it cannot encode.
use puncture.Common.{String, Bool, ◌||◌, Option, none, some, [], ◌∷◌, ◌==◌, if◌then◌else◌}
use puncture.Common.Outcome.{Outcome, ok, expect, ◌>>=◌}
use puncture.Common.Text.{◌<>◌}
use puncture.Html.{Markup, ◌⋄◌, plain, classed}

-- The markup around the picture of a text.
abbrev qr_markup : String → String → Markup
qr_markup svg content = classed "div" "text-center" (
    classed "div" "mb-3" (
      Markup.element "div"
        (("class", "border rounded p-2 bg-white d-inline-block")
          ∷ ("style", "width: 250px; max-width: 100%;")
          ∷ [])
        (Markup.element "div" (("style", "width: 100%; height: auto; overflow: hidden;") ∷ [])
          (Markup.pre_escaped ("<div style=\"width: 100%; height: auto;\">" <> svg <> "</div>"))))
    ⋄ Markup.element "button"
        (("type", "button")
          ∷ ("class", "btn btn-outline-primary btn-sm")
          ∷ (
            "onclick",
            ("navigator.clipboard.writeText('" <> content
                <> "').then(() => { this.textContent='Copied!'; setTimeout(() => this.textContent='Copy to Clipboard', 2000); }).catch(() => alert('Copy failed'))"),
          )
          ∷ [])
        (Markup.escaped "Copy to Clipboard"))

-- `QrCode::new(data).expect(..)`
unfoldable pub qr_code_with_copy : (String → Option String) → String → Outcome Markup
qr_code_with_copy qr_svg content =
    expect (qr_svg content) "Failed to generate QR code" >>= λ svg. ok (qr_markup svg content)

-- `size.unwrap_or("input-group-sm")`: every caller passes no size.
unfoldable pub copyable_hex_input : String → Option String → Markup
copyable_hex_input value size_option =
    let size : String = elim size_option [ none ↦ "input-group-sm" | some s ↦ s ] in
    classed "div" ("input-group " <> size) (
      Markup.element "input"
        (("type", "text")
          ∷ ("class", "form-control font-monospace")
          ∷ ("value", value)
          ∷ ("readonly", "")
          ∷ ("style", "min-width: 0;")
          ∷ [])
        Markup.empty
      ⋄ Markup.element "button"
          (("class", "btn btn-outline-secondary")
            ∷ ("type", "button")
            ∷ (
              "onclick",
              "navigator.clipboard.writeText(this.previousElementSibling.value); this.textContent='✓'; setTimeout(() => this.textContent='📋', 1000)",
            )
            ∷ [])
          (Markup.escaped "📋"))

abbrev nav_link : Bool → String
nav_link active = if active then "nav-link active" else "nav-link"

unfoldable pub base_template : String → String → Markup → Markup → Markup
base_template title current_path content action_sidebar =
    (Markup.pre_escaped "<!DOCTYPE html>")
    ⋄ plain "html" (
        plain "head" (
          Markup.element "meta" (("charset", "utf-8") ∷ []) Markup.empty
          ⋄ Markup.element "meta"
              (("name", "viewport") ∷ ("content", "width=device-width, initial-scale=1") ∷ [])
              Markup.empty
          ⋄ plain "title" (Markup.escaped title ⋄ Markup.escaped " - Puncture Dashboard")
          ⋄ Markup.element "link"
              (("href", "https://cdn.jsdelivr.net/npm/bootstrap@5.3.0/dist/css/bootstrap.min.css")
                ∷ ("rel", "stylesheet")
                ∷ [])
              Markup.empty
          ⋄ plain "style" (
              Markup.escaped
                ".action-sidebar { background-color: #f8f9fa !important; min-height: 100vh; }"))
        ⋄ plain "body" (
            Markup.element "div"
              (("id", "toast-container")
                ∷ ("class", "position-fixed top-0 end-0 p-3")
                ∷ ("style", "z-index: 1100;")
                ∷ [])
              Markup.empty
            ⋄ classed "nav" "navbar navbar-expand-lg navbar-dark bg-dark" (
                classed "div" "container-fluid" (
                  classed "ul" "navbar-nav me-auto" (
                    classed "li" "nav-item" (
                      Markup.element "a"
                        (("class", (nav_link (current_path == "/" || current_path == "/lightning")))
                          ∷ ("href", "/")
                          ∷ [])
                        (Markup.escaped "Lightning"))
                    ⋄ classed "li" "nav-item" (
                        Markup.element "a"
                          (("class", (nav_link (current_path == "/onchain")))
                            ∷ ("href", "/onchain")
                            ∷ [])
                          (Markup.escaped "Onchain"))
                    ⋄ classed "li" "nav-item" (
                        Markup.element "a"
                          (("class", (nav_link (current_path == "/users")))
                            ∷ ("href", "/users")
                            ∷ [])
                          (Markup.escaped "Users")))))
            ⋄ classed "div" "container-fluid" (
                classed "div" "row" (
                  classed "main" "col-lg-9 px-md-4" (classed "div" "pt-md-4 pb-md-4" content)
                  ⋄ classed "aside" "col-lg-3 px-md-4 action-sidebar"
                      (classed "div" "pt-md-4 pb-md-4" action_sidebar)))))
    ⋄ Markup.element "script"
        (("src", "https://cdn.jsdelivr.net/npm/bootstrap@5.3.0/dist/js/bootstrap.bundle.min.js")
          ∷ [])
        Markup.empty
    ⋄ Markup.element "script" (("src", "https://unpkg.com/htmx.org@1.9.10") ∷ []) Markup.empty

unfoldable pub success_replacement : String → String → Markup → Markup
success_replacement title message content =
    classed "h6" "mb-2" (Markup.escaped title)
    ⋄ classed "p" "mb-3 text-muted" (Markup.escaped message)
    ⋄ content

unfoldable pub success_message : String → Markup
success_message message =
    Markup.element "div"
      (("class", "alert alert-success mb-0")
        ∷ ("style", "word-wrap: break-word; overflow-wrap: break-word;")
        ∷ [])
      (Markup.escaped message)

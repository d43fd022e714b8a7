-- ===== src/Html.antt =====
-- Markup as the macro `html!` of the library maud builds it.
pub mod Forms
pub mod References
use puncture.Common.{
  ℕ, suc, String, Bool, true, false, ◌&&◌, ◌||◌, Option, none, some, List, [], ◌∷◌, ◌++◌, ◌==◌,
  if◌then◌else◌,
}

infixr 4 ◌⋄◌
pub data Markup : Type 0 where
  empty : Markup
  -- A text, which is escaped, and one that is not.
  escaped : String → Markup
  pre_escaped : String → Markup
  -- An attribute without a value has the empty text.
  element : String → List (String × String) → Markup → Markup
  ◌⋄◌ : Markup → Markup → Markup

-- An element without attributes, and one that has only a class.
abbrev pub plain : String → Markup → Markup
plain tag body = Markup.element tag [] body

abbrev pub classed : String → String → Markup → Markup
classed tag class body = Markup.element tag (("class", class) ∷ []) body

-- `@for (i, x) in xs.iter().enumerate()`, from i on.
abbrev pub each {ℓ} : {A : Type ℓ} → (ℕ → A → Markup) → ℕ → List A → Markup
each f i [] = Markup.empty
each f i (x ∷ xs) = f i x ⋄ each f (suc i) xs

-- `@if let Some(x) = option`
abbrev pub if_some {ℓ} : {A : Type ℓ} → Option A → (A → Markup) → Markup
if_some none f = Markup.empty
if_some (some x) f = f x

-- `true` and `false` as text.
abbrev pub display_bool : Bool → String
display_bool true = "true"
display_bool false = "false"

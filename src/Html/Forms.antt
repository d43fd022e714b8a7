-- ===== src/Html/Forms.antt =====
-- The forms of a page: where each posts to and the inputs it sends, against the fields that a
-- handler reads.
use puncture.Common.{
  ℕ, suc, String, Bool, true, false, ◌&&◌, ◌||◌, Option, none, some, List, [], ◌∷◌, ◌++◌, ◌==◌, ◌≡◌,
  refl, if◌then◌else◌,
}
use puncture.Html.{Markup, ◌⋄◌, each}

pub data FieldType : Type 0 where
  text : FieldType
  number : FieldType
  flag : FieldType

-- A field of a struct that derives `Deserialize`; `#[serde(default)]` lets it be missing.
pub record Field : Type 0 where
  pub name : String
  pub type : FieldType
  pub has_default : Bool

abbrev pub required : String → FieldType → Field
required name type = record { name = name; type = type; has_default = false }

abbrev pub defaulted : String → FieldType → Field
defaulted name type = record { name = name; type = type; has_default = true }

-- An input with a name. It is always sent with a value if it is hidden, or if the browser asks for
-- one.
pub record Input : Type 0 where
  pub name : String
  pub type : FieldType
  pub is_always_sent : Bool

pub record FormElement : Type 0 where
  pub hx_post : String
  pub inputs : List Input

abbrev pub attribute : String → List (String × String) → Option String
attribute key [] = none
attribute key ((k, v) ∷ rest) = let found = attribute key rest in if k == key then some v else found

abbrev has_attribute : String → List (String × String) → Bool
has_attribute key attributes = elim (attribute key attributes) [ none ↦ false | some v ↦ true ]

abbrev has_value : String → String → List (String × String) → Bool
has_value key value attributes = elim (attribute key attributes) [
  | none ↦ false
  | some v ↦ v == value
]

-- A box that is ticked sends `true`, else nothing.
abbrev type_of : List (String × String) → FieldType
type_of attributes =
    if has_value "type" "number" attributes
    then FieldType.number
    else if has_value "type" "checkbox" attributes && has_value "value" "true" attributes
    then FieldType.flag
    else FieldType.text

abbrev input_of : String → List (String × String) → Input
input_of name attributes = record {
  name = name;
  type = type_of attributes;
  is_always_sent =
      has_attribute "required" attributes
      || (has_value "type" "hidden" attributes && has_attribute "value" attributes);
}

abbrev named_input : Option String → List (String × String) → List Input
named_input none attributes = []
named_input (some name) attributes = input_of name attributes ∷ []

abbrev inputs_of : Markup → List Input
inputs_of Markup.empty = []
inputs_of (Markup.escaped s) = []
inputs_of (Markup.pre_escaped s) = []
inputs_of (Markup.element tag attributes body) =
    let inside = inputs_of body in
    if tag == "input" then named_input (attribute "name" attributes) attributes else inside
inputs_of (first ⋄ second) = inputs_of first ++ inputs_of second

abbrev form_of : List (String × String) → Markup → FormElement
form_of attributes body = record {
  hx_post = elim (attribute "hx-post" attributes) [ none ↦ "" | some path ↦ path ];
  inputs = inputs_of body;
}

-- Every form in the markup passes the test.
unfoldable pub all_forms : (FormElement → Bool) → Markup → Bool
all_forms p Markup.empty = true
all_forms p (Markup.escaped s) = true
all_forms p (Markup.pre_escaped s) = true
all_forms p (Markup.element tag attributes body) =
    let inside = all_forms p body in if tag == "form" then p (form_of attributes body) else inside
all_forms p (first ⋄ second) = all_forms p first && all_forms p second

abbrev same_type : FieldType → FieldType → Bool
same_type FieldType.text FieldType.text = true
same_type FieldType.number FieldType.number = true
same_type FieldType.flag FieldType.flag = true
same_type _ _ = false

-- The inputs are the fields, in order: the same name, a value of the type, and a field without a
-- default is always sent.
abbrev pub fits : List Field → List Input → Bool
fits [] [] = true
fits [] (input ∷ inputs) = false
fits (field ∷ fields) [] = false
fits (field ∷ fields) (input ∷ inputs) =
    let others = fits fields inputs in
    field.name == input.name
    && same_type field.type input.type
    && (field.has_default || input.is_always_sent)
    && others

pub all_forms-each {ℓ} :
    {A : Type ℓ} (p : FormElement → Bool) (f : ℕ → A → Markup)
    → ((i : ℕ) (x : A) → all_forms p (f i x) ≡ true)
    → (i : ℕ) (xs : List A) → all_forms p (each f i xs) ≡ true
unfolding all_forms
all_forms-each p f h i [] = refl
all_forms-each p f h i (x ∷ xs) = rw (h i x) (all_forms-each p f h (suc i) xs)

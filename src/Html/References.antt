-- ===== src/Html/References.antt =====
-- The ids of the elements of a page, and the elements that it refers to: the target and the parent of
-- a collapsing part, the part that a button controls, and the control of a label.
use puncture.Common.{ℕ, suc, String, Option, none, some, List, [], ◌∷◌, ◌++◌, ◌≡◌}
use puncture.Common.Text.{◌<>◌}
use puncture.Html.{Markup, ◌⋄◌, each}
use puncture.Html.Forms.{attribute}

abbrev values : Option String → List String
values none = []
values (some v) = v ∷ []

abbrev selectors : Option String → List String
selectors none = []
selectors (some v) = ("#" <> v) ∷ []

unfoldable pub ids_of : Markup → List String
ids_of Markup.empty = []
ids_of (Markup.escaped s) = []
ids_of (Markup.pre_escaped s) = []
ids_of (Markup.element tag attributes body) = values (attribute "id" attributes) ++ ids_of body
ids_of (first ⋄ second) = ids_of first ++ ids_of second

-- The references as selectors, `#` and an id.
unfoldable pub references_of : Markup → List String
references_of Markup.empty = []
references_of (Markup.escaped s) = []
references_of (Markup.pre_escaped s) = []
references_of (Markup.element tag attributes body) =
    values (attribute "data-bs-target" attributes)
    ++ values (attribute "data-bs-parent" attributes)
    ++ selectors (attribute "aria-controls" attributes)
    ++ selectors (attribute "for" attributes)
    ++ references_of body
references_of (first ⋄ second) = references_of first ++ references_of second

-- A selector names one of the ids.
pub data Names (selector : String) : List String → Type 0 where
  this : {id : String} {ids : List String} → selector ≡ "#" <> id → Names selector (id ∷ ids)
  later : {id : String} {ids : List String} → Names selector ids → Names selector (id ∷ ids)

abbrev pub AllNamed : List String → List String → Type 0
AllNamed ids [] = Unit
AllNamed ids (selector ∷ selectors) = Names selector ids × AllNamed ids selectors

-- Every reference of the markup names an id outside or one of its own.
abbrev pub Closed : List String → Markup → Type 0
Closed outside markup = AllNamed (outside ++ ids_of markup) (references_of markup)

-- What the first ids name, the second name.
abbrev pub Covers : List String → List String → Type 0
Covers ids ids' = (selector : String) → Names selector ids → Names selector ids'

pub AllNamed-mono :
    {ids ids' : List String} (selectors : List String)
    → Covers ids ids'
    → AllNamed ids selectors
    → AllNamed ids' selectors
AllNamed-mono [] c n = tt
AllNamed-mono (s ∷ selectors) c (n, ns) = (c s n, AllNamed-mono selectors c ns)

pub AllNamed-append :
    (ids first second : List String)
    → AllNamed ids first
    → AllNamed ids second
    → AllNamed ids (first ++ second)
AllNamed-append ids [] second f s = s
AllNamed-append ids (x ∷ first) second (n, f) s = (n, AllNamed-append ids first second f s)

pub Covers-first : (ids ids' : List String) → Covers ids (ids ++ ids')
Covers-first [] ids' s n = elim n [ ]
Covers-first (_ ∷ ids) ids' s (this e) = this e
Covers-first (_ ∷ ids) ids' s (later n) = later (Covers-first ids ids' s n)

Covers-second : (ids ids' : List String) → Covers ids' (ids ++ ids')
Covers-second [] ids' s n = n
Covers-second (_ ∷ ids) ids' s n = later (Covers-second ids ids' s n)

Covers-within :
    (outside : List String) {ids ids' : List String}
    → Covers ids ids'
    → Covers (outside ++ ids) (outside ++ ids')
Covers-within [] c s n = c s n
Covers-within (_ ∷ outside) c s (this e) = this e
Covers-within (_ ∷ outside) c s (later n) = later (Covers-within outside c s n)

pub Closed-seq :
    (outside : List String) (first second : Markup)
    → Closed outside first
    → Closed outside second
    → Closed outside (first ⋄ second)
unfolding ids_of references_of
Closed-seq outside first second f s =
    AllNamed-append _ (references_of first) (references_of second)
      (AllNamed-mono (references_of first)
        (Covers-within outside (Covers-first (ids_of first) (ids_of second))) f)
      (AllNamed-mono (references_of second)
        (Covers-within outside (Covers-second (ids_of first) (ids_of second))) s)

pub Closed-each {ℓ} :
    {A : Type ℓ} (outside : List String) (f : ℕ → A → Markup)
    → ((i : ℕ) (x : A) → Closed outside (f i x))
    → (i : ℕ) (xs : List A) → Closed outside (each f i xs)
unfolding references_of
Closed-each outside f h i [] = tt
Closed-each outside f h i (x ∷ xs) =
    Closed-seq outside (f i x) (each f (suc i) xs) (h i x) (Closed-each outside f h (suc i) xs)

-- Around the markup stands what refers to nothing else.
pub Closed-outer :
    (outside : List String) (markup : Markup) (ids : List String)
    → Covers (outside ++ ids_of markup) ids
    → Closed outside markup
    → AllNamed ids (references_of markup)
Closed-outer outside markup ids c h = AllNamed-mono (references_of markup) c h

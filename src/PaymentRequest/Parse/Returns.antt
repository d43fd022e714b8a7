-- ===== src/PaymentRequest/Parse/Returns.antt =====
-- The parsers return: each prefix that is removed makes the text shorter.
use mathlib.Core.Path.{ap, sym, ◌∙◌}
use mathlib.Core.Option.{some-injective}
use text.Mathlib.Text.{starts_with}
use text.Mathlib.TextEquality.{starts_with_iff}
use text.Mathlib.TextPositions.{len-append, slice-append_right, starts_with-append}
use Prim.Native.String.{len}
use puncture.Common.{
  ℕ, zero, suc, ◌<◌, String, ◌≡◌, refl, Bool-cases, Option, none, some, Option-cases, List, [], ◌∷◌,
  arith, inl, inr,
}
use puncture.Common.Text.{◌<>◌}
use puncture.PaymentRequest.{PaymentRequestWithAmount, PaymentRequestWithoutAmount}
use puncture.PaymentRequest.Parse.{
  Parsers, strip_prefix, strip_any, parse_from, read_with_amount, read_without_amount,
  parse_with_amount, parse_without_amount,
}

-- The rest after a prefix.
pub strip_prefix-append : (prefix rest : String) → strip_prefix (prefix <> rest) prefix ≡ some rest
strip_prefix-append prefix rest =
    rw (starts_with-append prefix rest, len-append prefix rest, slice-append_right prefix rest) refl

strip_prefix_shorter :
    (request prefix stripped : String)
    → 0 < len prefix
    → strip_prefix request prefix ≡ some stripped
    → len stripped < len request
strip_prefix_shorter request prefix stripped long e =
    elim (Bool-cases (starts_with request prefix)) [
      | inl has ↦
          let (rest, whole) = (starts_with_iff request prefix).0 has in
          let same : rest ≡ stripped =
            some-injective rest stripped
              (sym (strip_prefix-append prefix rest) ∙ ap (λ r. strip_prefix r prefix) whole ∙ e) in
          omega (arith, len-append prefix rest, ap len whole, ap len same)
      | inr lacks ↦ ground arith
    ]

-- No prefix is empty.
abbrev pub AllLong : List String → Type 0
AllLong [] = Unit
AllLong (prefix ∷ prefixes) = (0 < len prefix) × AllLong prefixes

strip_any_shorter :
    (prefixes : List String) (request stripped : String)
    → AllLong prefixes
    → strip_any prefixes request ≡ some stripped
    → len stripped < len request
strip_any_shorter [] request stripped long e = ground arith
strip_any_shorter (prefix ∷ prefixes) request stripped long e =
    elim (Option-cases (strip_prefix request prefix)) [
      | inl miss ↦ strip_any_shorter prefixes request stripped long.1 (ground (arith, miss))
      | inr (t, hit) ↦ strip_prefix_shorter request prefix stripped long.0 (ground (arith, hit))
    ]

module _ {A : Type 0} (prefixes : List String) (long : AllLong prefixes) (read : String → A) where
  -- Fuel for the whole text is enough.
  parse_from-enough :
      (fuel : ℕ) (request : String)
      → len request < fuel
      → (r : A) × (parse_from prefixes read fuel request ≡ some r)
  unfolding parse_from
  parse_from-enough zero request enough = absurd (omega arith)
  parse_from-enough (suc fuel) request enough = elim (Option-cases (strip_any prefixes request)) [
    | inl done ↦ (read request, rw (done, parse_from) refl)
    | inr (stripped, e) ↦
        let shorter = strip_any_shorter prefixes request stripped long e in
        rw (e, parse_from) (parse_from-enough fuel stripped (omega (arith, shorter)))
  ]

  -- More fuel than enough changes nothing.
  parse_from-same :
      (fuel fuel' : ℕ) (request : String)
      → len request < fuel
      → len request < fuel'
      → parse_from prefixes read fuel request ≡ parse_from prefixes read fuel' request
  unfolding parse_from
  parse_from-same zero fuel' request enough enough' = absurd (omega arith)
  parse_from-same (suc fuel) zero request enough enough' = absurd (omega arith)
  parse_from-same (suc fuel) (suc fuel') request enough enough' =
      elim (Option-cases (strip_any prefixes request)) [
        | inl done ↦ rw (done, parse_from) refl
        | inr (stripped, e) ↦
            let shorter = strip_any_shorter prefixes request stripped long e in
            rw (e, parse_from)
              (parse_from-same fuel fuel' stripped (omega (arith, shorter))
                (omega (arith, shorter)))
      ]

  -- With fuel for the whole text, the result is that of the text without its prefix.
  pub parse_from-stripped :
      (request stripped : String)
      → strip_any prefixes request ≡ some stripped
      → parse_from prefixes read (suc (len request)) request
        ≡ parse_from prefixes read (suc (len stripped)) stripped
  unfolding parse_from
  parse_from-stripped request stripped e =
      let shorter = strip_any_shorter prefixes request stripped long e in
      rw (e, parse_from)
        (parse_from-same (len request) (suc (len stripped)) stripped (omega (arith, shorter))
          (omega arith))

  pub parse_from-read :
      (request : String)
      → strip_any prefixes request ≡ none
      → parse_from prefixes read (suc (len request)) request ≡ some (read request)
  unfolding parse_from
  parse_from-read request e = rw (e, parse_from) refl

-- The body of a parser, where its own calls are calls of `parse`.
abbrev pub body :
    {A : Type 0} → List String → (String → A) → (String → Option A) → String → Option A
body prefixes read parse request = elim (strip_any prefixes request) [
  | none ↦ some (read request)
  | some stripped ↦ parse stripped
]

parse_from-body :
    {A : Type 0} (prefixes : List String)
    → AllLong prefixes
    → (read : String → A) (request : String)
    → let parse : String → Option A = λ s. parse_from prefixes read (suc (len s)) s in
      parse request ≡ body prefixes read parse request
parse_from-body prefixes long read request = elim (Option-cases (strip_any prefixes request)) [
  | inl done ↦ rw (done, body) (parse_from-read prefixes long read request done)
  | inr (stripped, e) ↦ rw (e, body) (parse_from-stripped prefixes long read request stripped e)
]

abbrev pub with_prefixes : List String
with_prefixes = "lightning:" ∷ []

abbrev pub without_prefixes : List String
without_prefixes = "lightning:" ∷ "lnurl:" ∷ "bitcoin:" ∷ []

-- Both parsers return for every text, however many prefixes it has, and each is what its body says
-- of it: without one of its prefixes the text is read, and with one the rest is parsed again.
pub parse_returns :
    (p : Parsers) (request : String)
    → ((r : Option PaymentRequestWithAmount) × (parse_with_amount p request ≡ some r))
      × ((r : Option PaymentRequestWithoutAmount) × (parse_without_amount p request ≡ some r))
      × (parse_with_amount p request
          ≡ body with_prefixes (read_with_amount p) (parse_with_amount p) request)
      × (parse_without_amount p request
          ≡ body without_prefixes (read_without_amount p) (parse_without_amount p) request)
unfolding parse_with_amount parse_without_amount
parse_returns p request = (
  parse_from-enough with_prefixes (omega arith, tt) (read_with_amount p) (suc (len request)) request
      (omega arith),
  parse_from-enough without_prefixes (omega arith, (omega arith, (omega arith, tt)))
      (read_without_amount p) (suc (len request)) request (omega arith),
  parse_from-body with_prefixes (omega arith, tt) (read_with_amount p) request,
  parse_from-body without_prefixes (omega arith, (omega arith, (omega arith, tt)))
      (read_without_amount p) request,
)

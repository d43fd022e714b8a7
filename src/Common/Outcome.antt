-- ===== src/Common/Outcome.antt =====
-- How a call ends: with a value, with an error message, or by a panic (a failed `expect`).
use Prim.Native.String.{String}
use mathlib.Core.Path.{◌≡◌, refl}
use mathlib.Core.Logic.{◌⊎◌, inl, inr}
use mathlib.Core.Bool.{Bool, true, false}
use mathlib.Core.Option.{Option, none, some}

pub data Outcome {ℓ} (A : Type ℓ) : Type ℓ where
  ok : A → Outcome A
  err : String → Outcome A
  panic : String → Outcome A

-- `r?` and the rest of the function.
infixl 5 ◌>>=◌ ◌>>◌
abbrev pub ◌>>=◌ {ℓ κ} : {A : Type ℓ} {B : Type κ} → Outcome A → (A → Outcome B) → Outcome B
panic text >>= next = panic text
err message >>= next = err message
ok value >>= next = next value

abbrev pub ◌>>◌ {ℓ} : {B : Type ℓ} → Outcome (Unit {0}) → Outcome B → Outcome B
first >> rest = first >>= λ done. rest

abbrev pub is_ok {ℓ} : {A : Type ℓ} → Outcome A → Bool
is_ok (ok a) = true
is_ok (err e) = false
is_ok (panic e) = false

-- `if b { return Err(e) }`
abbrev pub fail_if : Bool → String → Outcome (Unit {0})
fail_if true e = err e
fail_if false e = ok tt

-- `o.ok_or(e)?`
abbrev pub ok_or {ℓ} : {A : Type ℓ} → Option A → String → Outcome A
ok_or none e = err e
ok_or (some a) e = ok a

-- `o.expect(e)`
abbrev pub expect {ℓ} : {A : Type ℓ} → Option A → String → Outcome A
expect none e = panic e
expect (some a) e = ok a

-- A call succeeds, or is no success.
pub ok-cases {ℓ} : {A : Type ℓ} (m : Outcome A) → ((a : A) × (m ≡ ok a)) ⊎ (is_ok m ≡ false)
ok-cases (ok a) = inl (a, refl)
ok-cases (err e) = inr refl
ok-cases (panic e) = inr refl

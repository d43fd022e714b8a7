-- ===== src/Common/Words.antt =====
-- 64-bit and 32-bit words. A `u64` or an `i64` is its bit pattern, a number below 2 ^ 64, so the
-- casts `as i64` and `as u64` between the two leave the pattern as it is.
use Prim.Native.Nat.{ℕ, ◌+◌, ◌-◌, ◌*◌, ◌%◌, ◌^◌, ◌≤◌, ◌<◌}
use mathlib.Core.Path.{◌≡◌}
use mathlib.Core.List.{List, [], ◌∷◌}
use native.Mathlib.Omega.{arith}
use puncture.Common.Tests.{ltb, leb, if◌then◌else◌}

-- The number of 64-bit patterns, and the first pattern that is negative as an `i64`.
abbrev pub word64 : ℕ
word64 = 2 ^ 64

abbrev pub sign64 : ℕ
sign64 = 2 ^ 63

abbrev pub word32 : ℕ
word32 = 2 ^ 32

-- `a + b` and `a * b` as a release build computes them: they wrap around.
abbrev pub add64 : ℕ → ℕ → ℕ
add64 a b = (a + b) % word64

abbrev pub mul64 : ℕ → ℕ → ℕ
mul64 a b = (a * b) % word64

abbrev pub mul32 : ℕ → ℕ → ℕ
mul32 a b = (a * b) % word32

-- The order-preserving view of an `i64` pattern as a number: its value plus 2 ^ 63.
biased : ℕ → ℕ
biased a = (a + sign64) % word64

-- `i64::saturating_sub`: the difference, or `i64::MAX` or `i64::MIN` where it does not fit.
unfoldable pub saturating_sub : ℕ → ℕ → ℕ
unfolding biased
saturating_sub a b =
    if leb (biased b) (biased a)
    then (if leb sign64 (biased a - biased b) then sign64 - 1 else biased a - biased b)
    else (if ltb sign64 (biased b - biased a) then sign64 else word64 - (biased b - biased a))

-- On numbers that are not negative the difference never saturates; a negative one wraps as a `u64`.
pub saturating_sub-nonneg : (a b : ℕ) → a < sign64 → b ≤ a → saturating_sub a b ≡ a - b
unfolding saturating_sub
saturating_sub-nonneg a b ha hb = ground arith

pub saturating_sub-negative : (a b : ℕ) → b < sign64 → a < b → saturating_sub a b ≡ word64 - (b - a)
unfolding saturating_sub
saturating_sub-negative a b hb h = ground arith

-- `Iterator::sum` over 64-bit words, from the left.
pub sum_from : ℕ → List ℕ → ℕ
sum_from acc [] = acc
sum_from acc (x ∷ xs) = sum_from (add64 acc x) xs

unfoldable pub sum64 : List ℕ → ℕ
unfolding sum_from
sum64 = sum_from 0

-- The sum without wrap-around.
abbrev pub total : List ℕ → ℕ
total [] = 0
total (x ∷ xs) = x + total xs

sum_from_lem : (acc : ℕ) (xs : List ℕ) → acc < word64 → sum_from acc xs ≡ (acc + total xs) % word64
unfolding sum_from
sum_from_lem acc [] h = omega arith
sum_from_lem acc (x ∷ xs) h = omega (arith, sum_from_lem ((acc + x) % 2 ^ 64) xs (omega arith))

-- A wrapping sum is the sum, up to a multiple of 2 ^ 64.
pub sum64_lem : (xs : List ℕ) → sum64 xs ≡ total xs % word64
unfolding sum64
sum64_lem xs = omega (arith, sum_from_lem 0 xs (omega arith))

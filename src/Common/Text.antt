-- ===== src/Common/Text.antt =====
-- Numbers as decimal text (`to_string` of an unsigned integer).
use Prim.Native.Nat.{ℕ, zero, suc, ◌/◌, ◌%◌, Ordering}
use mathlib.Core.Bool.{Bool, true, false}
use Prim.Native.String.{String, compare}
pub use Prim.Native.String.{◌++◌ as ◌<>◌}
use puncture.Common.Tests.{ltb, if◌then◌else◌}

unfoldable pub digit : ℕ → String
digit zero = "0"
digit (suc zero) = "1"
digit (suc (suc zero)) = "2"
digit (suc (suc (suc zero))) = "3"
digit (suc (suc (suc (suc zero)))) = "4"
digit (suc (suc (suc (suc (suc zero))))) = "5"
digit (suc (suc (suc (suc (suc (suc zero)))))) = "6"
digit (suc (suc (suc (suc (suc (suc (suc zero))))))) = "7"
digit (suc (suc (suc (suc (suc (suc (suc (suc zero)))))))) = "8"
digit _ = "9"

unfoldable pub decimal_from : ℕ → ℕ → String
unfolding digit
decimal_from zero n = ""
decimal_from (suc fuel) n =
    let rest = decimal_from fuel (n / 10) in if ltb n 10 then digit n else rest <> digit (n % 10)

-- A 64-bit number has at most twenty digits.
unfoldable pub decimal : ℕ → String
unfolding decimal_from
decimal n = decimal_from 20 n

-- A 128-bit number has at most thirty-nine.
unfoldable pub decimal128 : ℕ → String
unfolding decimal_from
decimal128 n = decimal_from 39 n

-- The order of texts, `a <= b`.
abbrev pub text_leb : String → String → Bool
text_leb a b = elim (compare a b) [ Ordering.gt ↦ false | _ ↦ true ]

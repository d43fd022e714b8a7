-- ===== src/Dashboard/Sats.antt =====
-- puncture-daemon/src/ui/shared.rs: `format_sats`, a number with a comma between groups of three
-- digits.
use Prim.Native.String.{len, slice}
use puncture.Common.{ℕ, zero, suc, ◌-◌, String, List, [], ◌∷◌, leb, reverse, if◌then◌else◌}
use puncture.Common.Text.{◌<>◌, decimal}

-- `.rchunks(3)` of a text of digits: from the end, the last chunk may be shorter. A number of 64
-- bits has at most twenty digits, for which seven chunks are enough.
unfoldable pub rchunks : ℕ → String → List String
rchunks zero digits = []
rchunks (suc fuel) digits =
    let rest = rchunks fuel (slice digits 0 (len digits - 3)) in
    if leb (len digits) 3 then digits ∷ [] else slice digits (len digits - 3) (len digits) ∷ rest

-- `.join(separator)`
unfoldable pub join : String → List String → String
join separator [] = ""
join separator (chunk ∷ []) = chunk
join separator (chunk ∷ next ∷ chunks) = chunk <> separator <> join separator (next ∷ chunks)

unfoldable pub format_sats : ℕ → String
unfolding rchunks join
format_sats sats = join "," (reverse (rchunks 7 (decimal sats)))

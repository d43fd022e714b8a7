-- ===== src/Operator/Pages/Lightning.antt =====
-- When the page of the channels can be drawn.
use puncture.Common.{
  ℕ, ◌+◌, ◌*◌, ◌/◌, ◌%◌, ◌^◌, ◌≤◌, ◌<◌, ◌≡◌, refl, Bool, true, List, [], ◌∷◌, map, any, leb, arith,
}
use puncture.Common.Outcome.{ok, panic}
use puncture.Common.Words.{add64}
use puncture.Operator.{ChannelDetails, OperatorNode}
use puncture.Operator.Pages.{local_percentage, percentages, LightningPage, lightning_page}

-- A channel that can carry nothing in either direction.
abbrev pub is_empty : ChannelDetails → Bool
is_empty c = leb (add64 c.outbound_capacity_msat c.inbound_capacity_msat) 0

-- Each channel can carry something, and a hundred times as much fits 64 bits.
abbrev pub AllDrawable : List ChannelDetails → Type 0
AllDrawable [] = Unit
AllDrawable (c ∷ channels) =
    (0 < c.outbound_capacity_msat + c.inbound_capacity_msat)
    × (100 * (c.outbound_capacity_msat + c.inbound_capacity_msat) < 2 ^ 64)
    × AllDrawable channels

abbrev pub AllPercent : List ℕ → Type 0
AllPercent [] = Unit
AllPercent (p ∷ bars) = (p ≤ 100) × AllPercent bars

-- The part that is outbound, in percent and rounded down.
abbrev pub share : ChannelDetails → ℕ
share c = 100 * c.outbound_capacity_msat / (c.outbound_capacity_msat + c.inbound_capacity_msat)

percentages-empty :
    (channels : List ChannelDetails)
    → any is_empty channels ≡ true
    → percentages channels ≡ panic "attempt to divide by zero"
unfolding percentages
percentages-empty [] e = cc
percentages-empty (c ∷ channels) e = ground (arith, percentages-empty channels)

local_percentage_lem :
    (c : ChannelDetails)
    → 0 < c.outbound_capacity_msat + c.inbound_capacity_msat
    → 100 * (c.outbound_capacity_msat + c.inbound_capacity_msat) < 2 ^ 64
    → local_percentage c ≡ ok (share c)
unfolding local_percentage
local_percentage_lem c some_capacity small =
    let whole : (c.outbound_capacity_msat + c.inbound_capacity_msat) % 2 ^ 64
        ≡ c.outbound_capacity_msat + c.inbound_capacity_msat =
      omega arith in
    let part : 100 * c.outbound_capacity_msat % 2 ^ 64 ≡ 100 * c.outbound_capacity_msat =
      omega arith in
    rw (whole, part) (ground arith)

share-le : (a b : ℕ) → 0 < a + b → 100 * a / (a + b) ≤ 100
share-le a b h = grind arith

percentages_lem :
    (channels : List ChannelDetails)
    → AllDrawable channels
    → (percentages channels ≡ ok (map share channels)) × AllPercent (map share channels)
unfolding percentages
percentages_lem [] h = (refl, tt)
percentages_lem (c ∷ channels) h = ground (
  arith,
  local_percentage_lem c,
  share-le c.outbound_capacity_msat c.inbound_capacity_msat,
  percentages_lem channels,
)

-- Where each channel can carry something, and a hundred times as much fits 64 bits, the page is
-- drawn, with one bar for each channel: the share that is outbound, in percent, at most 100.
pub lightning_page_shown :
    (node : OperatorNode)
    → AllDrawable node.list_channels
    → (page : LightningPage) × (lightning_page node ≡ ok page)
      × (page.bars ≡ map share node.list_channels)
      × AllPercent page.bars
unfolding lightning_page
lightning_page_shown node drawable =
    let (same, bounded) = percentages_lem node.list_channels drawable in
    rw same (_, refl, refl, bounded)

-- A single channel that can carry nothing in either direction makes the page of the channels end in
-- a panic, whatever the others are.
pub lightning_page_panics :
    (node : OperatorNode)
    → any is_empty node.list_channels ≡ true
    → lightning_page node ≡ panic "attempt to divide by zero"
unfolding lightning_page
lightning_page_panics node empty = rw (percentages-empty node.list_channels empty)

-- ===== src/Operator/Pages.antt =====
-- What the dashboard shows of the node: `lightning_page` in puncture-daemon/src/ui/lightning.rs and
-- `onchain_page` in onchain.rs, as values; Dashboard draws them.
pub mod Lightning
pub mod Onchain
use Prim.Native.String.{len, slice}
use puncture.Common.{
  ℕ, zero, suc, ◌+◌, ◌-◌, ◌*◌, ◌/◌, ◌%◌, ◌^◌, String, Bool, List, [], ◌∷◌, map, length, filter, leb,
  if◌then◌else◌, Option, none, some, reverse,
}
use puncture.Common.Outcome.{Outcome, ok, panic, ◌>>=◌}
use puncture.Common.Words.{add64, mul64}
use puncture.Common.Sorting.{sort_by_key}
use puncture.Operator.{ChannelDetails, PeerDetails, OperatorNode}
use puncture.Operator.Cli.{usable_capacity}

-- The bar of a channel, in percent: `(100 * outbound) / (outbound + inbound)`.
unfoldable pub local_percentage : ChannelDetails → Outcome ℕ
local_percentage channel =
    let total_capacity = add64 channel.outbound_capacity_msat channel.inbound_capacity_msat in
    if leb total_capacity 0
    then panic "attempt to divide by zero"
    else ok (mul64 100 channel.outbound_capacity_msat / total_capacity)

-- The bars of all channels, drawn in order.
unfoldable pub percentages : List ChannelDetails → Outcome (List ℕ)
unfolding local_percentage
percentages [] = ok []
percentages (channel ∷ channels) = do
  percentage ← local_percentage channel
  others ← percentages channels
  ok (percentage ∷ others)

pub record LightningPage : Type 0 where
  pub node_id : String
  pub inbound_sats : ℕ
  pub outbound_sats : ℕ
  pub bars : List ℕ
  pub peers : List PeerDetails

unfoldable pub lightning_page : OperatorNode → Outcome LightningPage
unfolding percentages
lightning_page node = do
  bars ← percentages node.list_channels
  ok (record {
    node_id = node.node_id;
    inbound_sats = usable_capacity node (λ c. c.inbound_capacity_msat) / 1000;
    outbound_sats = usable_capacity node (λ c. c.outbound_capacity_msat) / 1000;
    bars = bars;
    peers = node.list_peers;
  })

-- ldk_node::payment::ConfirmationStatus, a block's hash, its height and its time in seconds, and the
-- kinds of a payment in the node's store.
pub data ConfirmationStatus : Type 0 where
  confirmed : String → ℕ → ℕ → ConfirmationStatus
  unconfirmed : ConfirmationStatus

pub data StoredPayment : Type 0 where
  onchain : String → ConfirmationStatus → StoredPayment
  other : StoredPayment

-- `.filter_map(…)`: the payments on chain.
unfoldable pub onchain_payments : List StoredPayment → List (String × ConfirmationStatus)
onchain_payments [] = []
onchain_payments (StoredPayment.onchain txid status ∷ payments) =
    (txid, status) ∷ onchain_payments payments
onchain_payments (StoredPayment.other ∷ payments) = onchain_payments payments

-- The key of a payment: its height, or `u32::MAX` before it is confirmed.
abbrev pub height_of : String × ConfirmationStatus → ℕ
height_of (txid, ConfirmationStatus.confirmed block_hash height timestamp) = height
height_of (txid, ConfirmationStatus.unconfirmed) = 2 ^ 32 - 1

-- The payments that `onchain_page` lists.
unfoldable pub onchain_page : List StoredPayment → List (String × ConfirmationStatus)
unfolding onchain_payments
onchain_page payments = reverse (sort_by_key height_of (onchain_payments payments))

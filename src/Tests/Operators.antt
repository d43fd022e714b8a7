-- ===== src/Tests/Operators.antt =====
-- What the operator does, at a small node.
use Prim.Native.String.{len}
use text.Mathlib.TextPositions.{len-append}
use puncture.Common.{
  ℕ, zero, suc, ◌<◌, String, true, false, ◌≡◌, refl, arith, some, none, List, [], ◌∷◌, map, leb,
  ◌&&◌, ◌==◌, if◌then◌else◌,
}
use puncture.Common.Outcome.{panic}
use puncture.Common.Text.{◌<>◌, decimal128}
use puncture.Node.{Answer}
use puncture.Operator.{ChannelDetails, Ended, OperatorNode}
use puncture.Operator.Messages.{OpenChannelRequest, CloseChannelRequest, OnchainDrainRequest}
use puncture.Operator.Cli.{
  channel_info, ldk_channel_list, ldk_channel_close, ldk_channel_open, ldk_onchain_drain,
  ldk_peer_connect, ldk_peer_disconnect,
}
use puncture.Operator.Forms.{
  try_open_channel, try_close_channel, try_connect_peer, try_disconnect_peer, onchain_drain_submit,
}
use puncture.Operator.Agreement.{
  Agree, Closes, is_done, shows_form, peer_forms-Agree, drain_refused, listed_channels_close,
}
use puncture.Operator.OpenedId.{ten_to, opened_id_refused}
use puncture.Operator.Pages.{StoredPayment, ConfirmationStatus, lightning_page}
use puncture.Operator.Pages.Lightning.{lightning_page_panics}

-- Ids are written as strokes.
pub strokes : ℕ → String
strokes zero = ""
strokes (suc n) = "1" <> strokes n

len-strokes : (n : ℕ) → len (strokes n) ≡ n
unfolding strokes
len-strokes zero = refl
len-strokes (suc n) = omega (arith, len-append "1" (strokes n), len-strokes n)

abbrev pub channel : ChannelDetails
channel = record {
  user_channel_id = 7;
  counterparty_node_id = "02aa";
  channel_value_sats = 100000;
  outbound_capacity_msat = 25000000;
  inbound_capacity_msat = 75000000;
  is_channel_ready = true;
  is_usable = true;
  is_outbound = true;
  funding_txo = none;
  confirmations = none;
  confirmations_required = none;
}

abbrev spent_channel : ChannelDetails
spent_channel = record channel { outbound_capacity_msat = 0; inbound_capacity_msat = 0 }

abbrev pub node : OperatorNode
node = record {
  node_id = "02ff";
  total_onchain_balance_sats = 5000;
  list_channels = channel ∷ [];
  list_peers = [];
  parse_address = λ text. Answer.granted text;
  require_network = λ text. Answer.granted text;
  parse_public_key = λ text. Answer.granted text;
  parse_socket_address = λ text. Answer.granted text;
  channel_id_from_hex =
      λ text. if leb (len text) 32 then Answer.granted (len text) else Answer.refused "too long";
  channel_id_as_hex = strokes;
  fee_rate = λ n. n;
  new_address = Answer.granted "bc1";
  send_to_address = λ address amount rate. Answer.granted "tx1";
  send_all_to_address = λ address rate. Answer.granted "tx2";
  open_announced_channel = λ peer address amount push. Answer.granted (ten_to 32);
  open_channel = λ peer address amount push. Answer.granted (ten_to 32);
  close_channel = λ id peer. Answer.granted tt;
  force_close_channel = λ id peer. Answer.refused "not yet";
  connect = λ peer address persist. Answer.granted tt;
  disconnect = λ peer. Answer.granted tt;
  create_order = λ order. Answer.refused "offline";
}

-- A node that reads the ids that it writes.
abbrev pub reading : OperatorNode
reading = record node { channel_id_from_hex = λ text. Answer.granted (len text) }

abbrev spent_node : OperatorNode
spent_node = record node { list_channels = channel ∷ spent_channel ∷ [] }

peer_forms_example :
    Agree
      (try_open_channel node (record {
        node_id = "02bb";
        socket_address = "10.0.0.1:9735";
        channel_amount_sats = 50000;
        public = true;
      }))
      (ldk_channel_open node (record {
        node_id = "02bb";
        socket_address = "10.0.0.1:9735";
        channel_amount_sats = 50000;
        push_to_counterparty_msat = none;
        public = true;
      }))
    × Agree
        (try_close_channel node
          (record { user_channel_id = "111"; counterparty_node_id = "02bb"; force = true }))
        (ldk_channel_close node
          (record { user_channel_id = "111"; counterparty_node_id = "02bb"; force = true }))
    × Agree
        (try_connect_peer node
          (record { node_id = "02bb"; socket_address = "10.0.0.1:9735"; persist = false }))
        (ldk_peer_connect node
          (record { node_id = "02bb"; socket_address = "10.0.0.1:9735"; persist = false }))
    × Agree
        (try_disconnect_peer node (record { counterparty_node_id = "02bb" }))
        (ldk_peer_disconnect node "02bb")
peer_forms_example =
    peer_forms-Agree node "02bb" "02bb" "10.0.0.1:9735" "111" 50000 true true false refl

abbrev drains : OnchainDrainRequest
drains = record { address = "bc1"; sats_per_vbyte = some 3 }

drain_refused_example :
    (is_done (ldk_onchain_drain node drains []).0 ≡ false)
    × ((ldk_onchain_drain node drains []).1 ≡ [])
    × (shows_form (onchain_drain_submit node (record { address = "bc1" }) []).0 ≡ true)
    × ((onchain_drain_submit node (record { address = "bc1" }) []).1 ≡ [])
drain_refused_example = drain_refused node drains (record { address = "bc1" }) channel [] [] refl

pub strokes_read :
    (id : ℕ) → reading.channel_id_from_hex (reading.channel_id_as_hex id) ≡ Answer.granted id
strokes_read id = rw (len-strokes id) refl

-- A node that knows the hex of one id: 32 digits.
abbrev hexed : OperatorNode
hexed = record node {
  channel_id_from_hex = λ text.
      if text == "00000000000000000000000000000007"
      then Answer.granted 7
      else Answer.refused "not an id";
  channel_id_as_hex = λ id.
      if leb 7 id && leb id 7
      then "00000000000000000000000000000007"
      else "000000000000000000000000000000ff";
}

listed : (ldk_channel_list hexed []).0 ≡ Ended.done (map (channel_info hexed) (channel ∷ []))
unfolding ldk_channel_list
listed = refl

listed_channels_close_example :
    Closes hexed (map (channel_info hexed) (channel ∷ [])) (channel ∷ [])
listed_channels_close_example =
    listed_channels_close hexed (map (channel_info hexed) (channel ∷ [])) [] (refl, tt) listed

long_refused :
    (t : String) → 32 < len t → (e : String) × (node.channel_id_from_hex t ≡ Answer.refused e)
long_refused t long = ("too long", ground arith)

abbrev pub opens : OpenChannelRequest
opens = record {
  node_id = "02bb";
  socket_address = "10.0.0.1:9735";
  channel_amount_sats = 50000;
  push_to_counterparty_msat = none;
  public = false;
}

opened : (ldk_channel_open node opens []).0 ≡ Ended.done (decimal128 (ten_to 32))
unfolding ldk_channel_open
opened = refl

abbrev closes_opened : CloseChannelRequest
closes_opened = record {
  user_channel_id = decimal128 (ten_to 32);
  counterparty_node_id = "02bb";
  force = false;
}

opened_id_refused_example :
    (is_done (ldk_channel_close node closes_opened []).0 ≡ false)
    × ((ldk_channel_close node closes_opened []).1 ≡ [])
opened_id_refused_example =
    opened_id_refused node opens "10.0.0.1:9735" "02bb" (decimal128 (ten_to 32)) (ten_to 32) false
      [] [] long_refused refl refl (omega arith) opened

lightning_page_panics_example : lightning_page spent_node ≡ panic "attempt to divide by zero"
lightning_page_panics_example = lightning_page_panics spent_node refl

abbrev pub stored : List StoredPayment
stored =
    StoredPayment.onchain "tx1" (ConfirmationStatus.confirmed "00aa" 800000 1700000000)
    ∷ StoredPayment.other
    ∷ StoredPayment.onchain "tx2" ConfirmationStatus.unconfirmed
    ∷ StoredPayment.onchain "tx3" (ConfirmationStatus.confirmed "00bb" 800100 1700060000)
    ∷ []

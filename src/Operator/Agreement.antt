-- ===== src/Operator/Agreement.antt =====
-- The dashboard and the command line do the same to the node.
use puncture.Common.{map, ℕ, String, Bool, true, false, ◌≡◌, none, List, [], ◌∷◌, ◌++◌, arith}
use puncture.Node.{Answer, Answer-cases}
use puncture.Operator.{ChannelDetails, Ended, OperatorCall, OperatorNode, Act}
use puncture.Operator.Messages.{ChannelInfo, OnchainDrainRequest}
use puncture.Operator.Cli.{
  ldk_onchain_send, ldk_onchain_drain, ldk_channel_open, ldk_channel_close, ldk_channel_list,
  ldk_peer_connect, ldk_peer_disconnect, channel_info, closing,
}
use puncture.Operator.Forms.{
  OnchainDrainForm, Shown, try_open_channel, try_close_channel, try_connect_peer,
  try_disconnect_peer, try_send_bitcoin, try_drain_wallet, onchain_drain_submit,
}

abbrev pub is_done : {E A : Type 0} → Ended E A → Bool
is_done (Ended.done a) = true
is_done (Ended.failed e) = false
is_done (Ended.panicked e) = false

-- The page shows the form again, with an error.
abbrev pub shows_form : Ended String Shown → Bool
shows_form (Ended.done (Shown.form_again error)) = true
shows_form (Ended.done (Shown.success_message message)) = false
shows_form (Ended.done (Shown.success_replacement title message content)) = false
shows_form (Ended.failed e) = false
shows_form (Ended.panicked e) = false

-- Two actions make the same calls, and both succeed or neither does.
abbrev pub Agree : {E F A B : Type 0} → Act E A → Act F B → Type 0
Agree m n =
    (calls : List OperatorCall)
    → (is_done (m calls).0 ≡ is_done (n calls).0) × ((m calls).1 ≡ (n calls).1)

module _ (node : OperatorNode) where
  -- Where the node id of a form is read as `peer`, opening a channel, closing a channel, connecting
  -- to a peer and disconnecting from it make the same calls in the dashboard as on the command line
  -- without an amount to push, and succeed in the same cases.
  pub peer_forms-Agree :
      (text peer socket_address channel_id : String) (sats : ℕ) (public force persist : Bool)
      → node.parse_public_key text ≡ Answer.granted peer
      → Agree
          (try_open_channel node (record {
            node_id = text;
            socket_address = socket_address;
            channel_amount_sats = sats;
            public = public;
          }))
          (ldk_channel_open node (record {
            node_id = peer;
            socket_address = socket_address;
            channel_amount_sats = sats;
            push_to_counterparty_msat = none;
            public = public;
          }))
        × Agree
            (try_close_channel node
              (record { user_channel_id = channel_id; counterparty_node_id = text; force = force }))
            (ldk_channel_close node
              (record { user_channel_id = channel_id; counterparty_node_id = peer; force = force }))
        × Agree
            (try_connect_peer node
              (record { node_id = text; socket_address = socket_address; persist = persist }))
            (ldk_peer_connect node
              (record { node_id = peer; socket_address = socket_address; persist = persist }))
        × Agree
            (try_disconnect_peer node (record { counterparty_node_id = text }))
            (ldk_peer_disconnect node peer)
  unfolding try_open_channel ldk_channel_open try_close_channel ldk_channel_close try_connect_peer
      ldk_peer_connect try_disconnect_peer ldk_peer_disconnect
  peer_forms-Agree text peer socket_address channel_id sats public force persist e =
      (λ calls. ground arith, λ calls. ground arith, λ calls. ground arith, λ calls. ground arith)

  -- Where the address of a form is read as `address`, sending and draining make the same calls in
  -- the dashboard as on the command line without a fee rate, and succeed in the same cases.
  pub wallet_forms-Agree :
      (text address : String) (sats : ℕ)
      → node.parse_address text ≡ Answer.granted address
      → Agree (try_send_bitcoin node (record { address = text; amount_sats = sats })) (
          ldk_onchain_send node
            (record { address = address; amount_sats = sats; sats_per_vbyte = none }))
        × Agree
            (try_drain_wallet node (record { address = text }))
            (ldk_onchain_drain node (record { address = address; sats_per_vbyte = none }))
  unfolding try_send_bitcoin ldk_onchain_send try_drain_wallet ldk_onchain_drain
  wallet_forms-Agree text address sats e = (λ calls. ground arith, λ calls. ground arith)

  -- While a channel is open, neither the command line nor the dashboard drains the wallet: both
  -- make no call to the node, the one ends in an error and the other shows the form again.
  pub drain_refused :
      (request : OnchainDrainRequest) (form : OnchainDrainForm) (channel : ChannelDetails)
      (channels : List ChannelDetails) (calls : List OperatorCall)
      → node.list_channels ≡ channel ∷ channels
      → (is_done (ldk_onchain_drain node request calls).0 ≡ false)
        × ((ldk_onchain_drain node request calls).1 ≡ calls)
        × (shows_form (onchain_drain_submit node form calls).0 ≡ true)
        × ((onchain_drain_submit node form calls).1 ≡ calls)
  unfolding ldk_onchain_drain onchain_drain_submit try_drain_wallet
  drain_refused request form channel channels calls e = ground arith

  -- Each entry of a list closes one channel: the force flag decides how.
  abbrev pub Closes : List ChannelInfo → List ChannelDetails → Type 0
  Closes [] [] = Unit
  Closes [] (c ∷ channels) = ⊥
  Closes (i ∷ infos) [] = ⊥
  Closes (i ∷ infos) (c ∷ channels) =
      ((force : Bool) (calls : List OperatorCall)
        → (ldk_channel_close node
            (record {
              user_channel_id = i.user_channel_id;
              counterparty_node_id = i.counterparty_node_id;
              force = force;
            })
            calls).1
          ≡ calls ++ (closing node force c.user_channel_id c.counterparty_node_id).0 ∷ [])
      × Closes infos channels

  -- The id of each channel is read back from the hex that it is written in.
  abbrev AllRead : List ChannelDetails → Type 0
  AllRead [] = Unit
  AllRead (c ∷ channels) =
      (node.channel_id_from_hex (node.channel_id_as_hex c.user_channel_id)
        ≡ Answer.granted c.user_channel_id)
      × AllRead channels

  map-Closes :
      (channels : List ChannelDetails)
      → AllRead channels
      → Closes (map (channel_info node) channels) channels
  unfolding ldk_channel_close
  map-Closes [] read = tt
  map-Closes (c ∷ channels) read = (
    λ force calls. ground (
      arith,
      read.0,
      Answer-cases (closing node force c.user_channel_id c.counterparty_node_id).1,
    ),
    map-Closes channels read.1,
  )

  -- Where the ids of the node's channels are read back from hex, they can be closed as listed:
  -- a request with the ids of an entry makes exactly the call that closes this channel, by force
  -- if the request says so.
  pub listed_channels_close :
      (infos : List ChannelInfo) (calls : List OperatorCall)
      → AllRead node.list_channels
      → (ldk_channel_list node calls).0 ≡ Ended.done infos
      → Closes infos node.list_channels
  unfolding ldk_channel_list
  listed_channels_close infos calls read listed =
      let same : map (channel_info node) node.list_channels ≡ infos = ground arith in
      rw (← same) (map-Closes node.list_channels read)

-- ===== src/Command/Routes.antt =====
-- The routes of puncture-cli-core/src/lib.rs.
use puncture.Common.{String}

abbrev pub route_ldk_node_id : String
route_ldk_node_id = "/ldk/node-id"

abbrev pub route_ldk_balances : String
route_ldk_balances = "/ldk/balances"

abbrev pub route_ldk_onchain_receive : String
route_ldk_onchain_receive = "/ldk/onchain/receive"

abbrev pub route_ldk_onchain_send : String
route_ldk_onchain_send = "/ldk/onchain/send"

abbrev pub route_ldk_onchain_drain : String
route_ldk_onchain_drain = "/ldk/onchain/drain"

abbrev pub route_ldk_channel_open : String
route_ldk_channel_open = "/ldk/channel/open"

abbrev pub route_ldk_channel_close : String
route_ldk_channel_close = "/ldk/channel/close"

abbrev pub route_ldk_channel_list : String
route_ldk_channel_list = "/ldk/channel/list"

abbrev pub route_ldk_channel_request : String
route_ldk_channel_request = "/ldk/channel/request"

abbrev pub route_ldk_peer_connect : String
route_ldk_peer_connect = "/ldk/peer/connect"

abbrev pub route_ldk_peer_disconnect : String
route_ldk_peer_disconnect = "/ldk/peer/disconnect"

abbrev pub route_ldk_peer_list : String
route_ldk_peer_list = "/ldk/peer/list"

abbrev pub route_user_invite : String
route_user_invite = "/user/invite"

abbrev pub route_user_recover : String
route_user_recover = "/user/recover"

abbrev pub route_user_list : String
route_user_list = "/user/list"

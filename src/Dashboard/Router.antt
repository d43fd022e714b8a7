-- ===== src/Dashboard/Router.antt =====
-- puncture-daemon/src/ui/mod.rs: the routes of the dashboard, and the fields that the handler of each
-- form reads, which are those of its struct in lightning.rs, onchain.rs and users.rs.
use puncture.Common.{String, Bool, false, Option, none, some, List, [], ◌∷◌, ◌==◌, if◌then◌else◌}
use puncture.Html.Forms.{FieldType, Field, required, defaulted, FormElement, fits}

pub data Handler : Type 0 where
  lightning_page : Handler
  open_channel_submit : Handler
  request_channel_submit : Handler
  close_channel_submit : Handler
  connect_peer_submit : Handler
  disconnect_peer_submit : Handler
  onchain_page : Handler
  onchain_receive_submit : Handler
  onchain_send_submit : Handler
  onchain_drain_submit : Handler
  users_page : Handler
  invite_submit : Handler
  recovery_submit : Handler

pub data MethodRouter : Type 0 where
  get : Handler → MethodRouter
  post : Handler → MethodRouter

unfoldable pub create_router : List (String × MethodRouter)
create_router =
    ("/", MethodRouter.get Handler.lightning_page)
    ∷ ("/lightning", MethodRouter.get Handler.lightning_page)
    ∷ ("/lightning/channel/open", MethodRouter.post Handler.open_channel_submit)
    ∷ ("/lightning/channel/request", MethodRouter.post Handler.request_channel_submit)
    ∷ ("/lightning/channel/close", MethodRouter.post Handler.close_channel_submit)
    ∷ ("/lightning/peer/connect", MethodRouter.post Handler.connect_peer_submit)
    ∷ ("/lightning/peer/disconnect", MethodRouter.post Handler.disconnect_peer_submit)
    ∷ ("/onchain", MethodRouter.get Handler.onchain_page)
    ∷ ("/onchain/receive", MethodRouter.post Handler.onchain_receive_submit)
    ∷ ("/onchain/send", MethodRouter.post Handler.onchain_send_submit)
    ∷ ("/onchain/drain", MethodRouter.post Handler.onchain_drain_submit)
    ∷ ("/users", MethodRouter.get Handler.users_page)
    ∷ ("/users/invite", MethodRouter.post Handler.invite_submit)
    ∷ ("/users/recover", MethodRouter.post Handler.recovery_submit)
    ∷ []

abbrev open_channel_fields : List Field
open_channel_fields =
    required "node_id" FieldType.text
    ∷ required "socket_address" FieldType.text
    ∷ required "channel_amount_sats" FieldType.number
    ∷ defaulted "public" FieldType.flag
    ∷ []

abbrev request_channel_fields : List Field
request_channel_fields =
    required "lsp_balance_sat" FieldType.number ∷ defaulted "public" FieldType.flag ∷ []

abbrev close_channel_fields : List Field
close_channel_fields =
    required "user_channel_id" FieldType.text
    ∷ required "counterparty_node_id" FieldType.text
    ∷ defaulted "force" FieldType.flag
    ∷ []

abbrev connect_peer_fields : List Field
connect_peer_fields =
    required "node_id" FieldType.text
    ∷ required "socket_address" FieldType.text
    ∷ defaulted "persist" FieldType.flag
    ∷ []

abbrev disconnect_peer_fields : List Field
disconnect_peer_fields = required "counterparty_node_id" FieldType.text ∷ []

abbrev onchain_send_fields : List Field
onchain_send_fields =
    required "address" FieldType.text ∷ required "amount_sats" FieldType.number ∷ []

abbrev onchain_drain_fields : List Field
onchain_drain_fields = required "address" FieldType.text ∷ []

abbrev invite_fields : List Field
invite_fields =
    required "expiry_days" FieldType.number ∷ required "user_limit" FieldType.number ∷ []

abbrev recovery_fields : List Field
recovery_fields = required "user_pk" FieldType.text ∷ []

-- The fields of the form that a handler takes, if it takes one.
abbrev form_fields : Handler → List Field
form_fields Handler.open_channel_submit = open_channel_fields
form_fields Handler.request_channel_submit = request_channel_fields
form_fields Handler.close_channel_submit = close_channel_fields
form_fields Handler.connect_peer_submit = connect_peer_fields
form_fields Handler.disconnect_peer_submit = disconnect_peer_fields
form_fields Handler.onchain_send_submit = onchain_send_fields
form_fields Handler.onchain_drain_submit = onchain_drain_fields
form_fields Handler.invite_submit = invite_fields
form_fields Handler.recovery_submit = recovery_fields
form_fields _ = []

-- The handler that answers a POST request, if there is one.
abbrev pub find_post : String → List (String × MethodRouter) → Option Handler
find_post path [] = none
find_post path ((route, MethodRouter.get handler) ∷ routes) = find_post path routes
find_post path ((route, MethodRouter.post handler) ∷ routes) =
    let found = find_post path routes in if route == path then some handler else found

-- A form posts to a handler that reads what the form sends.
unfoldable pub is_served : FormElement → Bool
unfolding create_router
is_served form = elim (find_post form.hx_post create_router) [
  | none ↦ false
  | some handler ↦ fits (form_fields handler) form.inputs
]

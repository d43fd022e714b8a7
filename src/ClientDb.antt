-- ===== src/ClientDb.antt =====
-- puncture-daemon/src/client/db.rs: the queries and updates of the client interface. `now` is the
-- time of the request. An `INSERT` that breaks a primary key ends in a panic by `expect`.
pub mod Inserts
pub mod Payments
use puncture.Common.{
  ℕ, ◌+◌, ◌*◌, String, Bool, not, ◌&&◌, Option, none, some, List, [], ◌∷◌, length, filter, find,
  any, ltb, ◌==◌, if◌then◌else◌,
}
use puncture.Common.Outcome.{Outcome, ok, ◌>>=◌, expect}
use puncture.Models.{
  User, InviteRecord, InvoiceRecord, ReceiveRecord, SendRecord, OfferRecord, RecoveryRecord, Tables,
  insert_row, insert_or_ignore,
}
use puncture.ClientCore.{Bolt11Invoice, Offer}

unfoldable pub user_exists : Tables → String → Bool
user_exists db user_pk = any (λ row. row.user_pk == user_pk) db.users

unfoldable pub get_invite : Tables → String → Option InviteRecord
get_invite db invite_id = find (λ row. row.id == invite_id) db.invites

unfoldable pub count_invite_users : Tables → String → ℕ
count_invite_users db invite_id = length (filter (λ row. row.invite_id == invite_id) db.users)

unfoldable pub register_user_with_invite : ℕ → String → String → Tables → Tables
register_user_with_invite now user_pk invite_id db =
    let row : User = record {
      user_pk = user_pk;
      invite_id = invite_id;
      recovery_name = none;
      created_at = now;
    } in
    record db { users = insert_or_ignore (λ r. r.user_pk) row db.users }

unfoldable pub get_recovery : Tables → String → Option RecoveryRecord
get_recovery db recovery_id = find (λ row. row.id == recovery_id) db.recoveries

unfoldable pub create_invoice :
    ℕ → String → Bolt11Invoice → ℕ → String → ℕ → Tables → Outcome (Unit {0} × Tables)
create_invoice now user_pk invoice amount_msat description expiry_secs db =
    let new_invoice : InvoiceRecord = record {
      id = invoice.payment_hash;
      user_pk = user_pk;
      amount_msat = some amount_msat;
      description = description;
      pr = invoice.text;
      expires_at = now + expiry_secs * 1000;
      created_at = now;
    } in
    do
      rows ← expect (insert_row (λ r. r.id) new_invoice db.invoices) "Failed to create invoice"
      ok (tt, record db { invoices = rows })

-- The invoices of the user that have not expired and have no receipt under their id.
unfoldable pub count_pending_invoices : ℕ → Tables → String → ℕ
count_pending_invoices now db user_pk = length (
    filter (λ i. not (any (λ (r : ReceiveRecord). i.id == r.id) db.receives))
      (filter (λ i. ltb now i.expires_at) (filter (λ i. i.user_pk == user_pk) db.invoices)))

unfoldable pub create_offer :
    ℕ → String → Offer → Option ℕ → String → Option ℕ → Tables → Outcome (Unit {0} × Tables)
create_offer now user_pk offer amount_msat description expiry_secs db =
    let new_offer : OfferRecord = record {
      id = offer.id;
      user_pk = user_pk;
      amount_msat = amount_msat;
      description = description;
      pr = offer.text;
      expires_at = elim expiry_secs [ none ↦ none | some secs ↦ some (now + secs * 1000) ];
      created_at = now;
    } in
    do
      rows ← expect (insert_row (λ r. r.id) new_offer db.offers) "Failed to create offer"
      ok (tt, record db { offers = rows })

-- `ORDER BY created_at DESC`, first row.
unfoldable pub newest : List OfferRecord → Option OfferRecord
newest [] = none
newest (o ∷ rows) = elim (newest rows) [
  | none ↦ some o
  | some best ↦ if ltb o.created_at best.created_at then some best else some o
]

unfoldable pub get_offer_by_user_pk : Tables → String → Option OfferRecord
unfolding newest
get_offer_by_user_pk db user_pk = newest (filter (λ row. row.user_pk == user_pk) db.offers)

unfoldable pub count_pending_sends : Tables → String → ℕ
count_pending_sends db user_pk =
    length (filter (λ s. s.status == "pending") (filter (λ s. s.user_pk == user_pk) db.sends))

-- The two rows of a transfer.
abbrev pub transfer_send : ℕ → String → String → ℕ → ℕ → String → String → SendRecord
transfer_send now transfer_id send_user_pk amount_msat fee_msat pr description = record {
  id = transfer_id;
  user_pk = send_user_pk;
  amount_msat = amount_msat;
  fee_msat = fee_msat;
  description = description;
  pr = pr;
  status = "successful";
  ln_address = none;
  created_at = now;
}

abbrev pub transfer_receive : ℕ → String → String → ℕ → String → String → ReceiveRecord
transfer_receive now transfer_id receive_user_pk amount_msat pr description = record {
  id = transfer_id;
  user_pk = receive_user_pk;
  amount_msat = amount_msat;
  description = description;
  pr = pr;
  created_at = now;
}

-- Both rows are stored in one transaction: either both are, or none is.
unfoldable pub create_internal_transfer :
    ℕ
    → String
    → String
    → String
    → ℕ
    → ℕ
    → String
    → String
    → Tables
    → Outcome ((SendRecord × ReceiveRecord) × Tables)
create_internal_transfer now transfer_id send_user_pk receive_user_pk amount_msat fee_msat pr
      description db =
    let send_record =
      transfer_send now transfer_id send_user_pk amount_msat fee_msat pr description in
    let receive_record =
      transfer_receive now transfer_id receive_user_pk amount_msat pr description in
    do
      sends ←
          expect (insert_row (λ r. r.id) send_record db.sends) "Failed to create internal transfer"
      receives ←
          expect (insert_row (λ r. r.id) receive_record db.receives)
            "Failed to create internal transfer"
      ok ((send_record, receive_record), record db { sends = sends; receives = receives })

-- The row of a payment by the node.
abbrev pub send_row :
    ℕ → String → String → ℕ → ℕ → String → String → String → Option String → SendRecord
send_row now id user_pk amount_msat fee_msat description pr status ln_address = record {
  id = id;
  user_pk = user_pk;
  amount_msat = amount_msat;
  fee_msat = fee_msat;
  description = description;
  pr = pr;
  status = status;
  ln_address = ln_address;
  created_at = now;
}

unfoldable pub create_send_payment :
    ℕ
    → String
    → String
    → ℕ
    → ℕ
    → String
    → String
    → String
    → Option String
    → Tables
    → Outcome (SendRecord × Tables)
create_send_payment now id user_pk amount_msat fee_msat description pr status ln_address db =
    let new_send = send_row now id user_pk amount_msat fee_msat description pr status ln_address in
    do
      rows ← expect (insert_row (λ r. r.id) new_send db.sends) "Failed to insert send payment"
      ok (new_send, record db { sends = rows })

-- `UPDATE user SET recovery_name = … WHERE user_pk = …`
unfoldable pub rename : String → Option String → List User → List User
rename user_pk recovery_name [] = []
rename user_pk recovery_name (row ∷ rows) =
    (if row.user_pk == user_pk then record row { recovery_name = recovery_name } else row)
    ∷ rename user_pk recovery_name rows

unfoldable pub set_recovery_name : String → Option String → Tables → Tables
unfolding rename
set_recovery_name user_pk recovery_name db = record db {
  users = rename user_pk recovery_name db.users;
}

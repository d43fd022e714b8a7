-- ===== src/Ledger.antt =====
-- puncture-daemon/src/db.rs: the queries that the client interface and the node's events share.
-- The proofs are in the modules below.
pub mod Balance
pub mod Status
use puncture.Common.{
  ℕ, String, Option, none, some, List, [], ◌∷◌, map, not, filter, find, ◌==◌, if◌then◌else◌,
}
use puncture.Common.Words.{add64, saturating_sub, sum64}
use puncture.Models.{
  InvoiceRecord, OfferRecord, ReceiveRecord, SendRecord, Tables, insert_or_ignore,
}

unfoldable pub get_invoice : Tables → String → Option InvoiceRecord
get_invoice db payment_hash = find (λ row. row.id == payment_hash) db.invoices

unfoldable pub get_offer : Tables → String → Option OfferRecord
get_offer db payment_id = find (λ row. row.id == payment_id) db.offers

-- `UPDATE send SET status = … WHERE id = …`
unfoldable pub set_status : String → String → List SendRecord → List SendRecord
set_status id status [] = []
set_status id status (s ∷ rows) =
    (if s.id == id then record s { status = status } else s) ∷ set_status id status rows

-- `UPDATE send SET fee_msat = … WHERE id = …`
unfoldable pub set_fee : String → ℕ → List SendRecord → List SendRecord
set_fee id fee_msat [] = []
set_fee id fee_msat (s ∷ rows) =
    (if s.id == id then record s { fee_msat = fee_msat } else s) ∷ set_fee id fee_msat rows

unfoldable pub update_send_status : Tables → String → String → ℕ → Option SendRecord × Tables
update_send_status db id status fee_paid_msat =
    let sends = set_fee id fee_paid_msat (set_status id status db.sends) in
    (find (λ row. row.id == id) sends, record db { sends = sends })

unfoldable pub create_receive_payment : Tables → ReceiveRecord → Tables
create_receive_payment db row = record db {
  receives = insert_or_ignore (λ r. r.id) row db.receives;
}

unfoldable pub receive_sum : String → List ReceiveRecord → ℕ
receive_sum user_pk rows =
    sum64 (map (λ r. r.amount_msat) (filter (λ r. r.user_pk == user_pk) rows))

unfoldable pub send_sum : String → List SendRecord → ℕ
send_sum user_pk rows = sum64 (
    map (λ s. add64 s.amount_msat s.fee_msat)
      (filter (λ s. not (s.status == "failed")) (filter (λ s. s.user_pk == user_pk) rows)))

unfoldable pub user_balance : Tables → String → ℕ
unfolding receive_sum send_sum
user_balance db user_pk =
    saturating_sub (receive_sum user_pk db.receives) (send_sum user_pk db.sends)

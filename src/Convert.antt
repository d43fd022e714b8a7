-- ===== src/Convert.antt =====
-- puncture-daemon/src/convert.rs: rows as payments, and payable requests as receipts.
use puncture.Common.{ℕ, String, Bool, none}
use puncture.Models.{InvoiceRecord, OfferRecord, ReceiveRecord, SendRecord}
use puncture.ClientCore.{Payment}

-- `ReceiveRecord::into_payment`
unfoldable pub received_payment : ReceiveRecord → Bool → Payment
received_payment r is_live = record {
  id = r.id;
  payment_type = "receive";
  is_live = is_live;
  amount_msat = r.amount_msat;
  fee_msat = 0;
  description = r.description;
  status = "successful";
  ln_address = none;
  created_at = r.created_at;
}

-- `SendRecord::into_payment`
unfoldable pub sent_payment : SendRecord → Bool → Payment
sent_payment r is_live = record {
  id = r.id;
  payment_type = "send";
  is_live = is_live;
  amount_msat = r.amount_msat;
  fee_msat = r.fee_msat;
  description = r.description;
  status = r.status;
  ln_address = r.ln_address;
  created_at = r.created_at;
}

-- `InvoiceRecord::into_receive_record`, at the time `now`.
unfoldable pub invoice_receipt : ℕ → InvoiceRecord → String → ℕ → ReceiveRecord
invoice_receipt now invoice id amount_msat = record {
  id = id;
  user_pk = invoice.user_pk;
  amount_msat = amount_msat;
  description = invoice.description;
  pr = invoice.pr;
  created_at = now;
}

-- `OfferRecord::into_receive_record`, at the time `now`.
unfoldable pub offer_receipt : ℕ → OfferRecord → String → ℕ → ReceiveRecord
offer_receipt now offer id amount_msat = record {
  id = id;
  user_pk = offer.user_pk;
  amount_msat = amount_msat;
  description = offer.description;
  pr = offer.pr;
  created_at = now;
}

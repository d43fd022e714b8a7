-- ===== src/Tests/Data.antt =====
-- A small daemon and its users, for the runs of the other test modules.
use puncture.Common.{some, none, [], ◌∷◌}
use puncture.Models.{SendRecord}
use puncture.ClientCore.{Bolt11Invoice, Offer, Bolt11SendRequest}
use puncture.ClientDb.{send_row}
use puncture.Node.{Answer, Node}
use puncture.Handler.{Args, Env, World}

-- The default options.
abbrev pub args : Args
args = record {
  bitcoin_network = "regtest";
  daemon_name = "test";
  fee_ppm = 5000;
  base_fee_msat = 10000;
  invoice_expiry_secs = 3600;
  onchain_base_fee_msat = 5000000;
  min_amount_sats = 1;
  max_amount_sats = 100000;
  max_pending_payments_per_user = 10;
}

abbrev pub foreign_invoice : Bolt11Invoice
foreign_invoice = record { payment_hash = "h9"; text = "lnbc9"; description = "books" }

abbrev pub bare_offer : Offer
bare_offer = record { id = "o9"; text = "lno9"; description = none }

-- A node that accepts every payment.
abbrev pub node : Node
node = record {
  description = λ text. Answer.granted text;
  bolt11_receive = λ amount text expiry. Answer.granted foreign_invoice;
  bolt12_receive = Answer.granted bare_offer;
  bolt11_send = λ i amount. Answer.granted i.payment_hash;
  bolt12_send = λ o amount. Answer.granted o.id;
  parse_offer = λ text. Answer.granted bare_offer;
  require_network = λ text. Answer.granted text;
  onchain_send = λ address amount. Answer.granted "tx1";
}

abbrev pub env : Env
env = record { args = args; now = 5000; transfer_id = "t1"; node = node }

abbrev pub pending_send : SendRecord
pending_send = send_row 2000 "s1" "alice" 200000 11000 "tea" "lnbc2" "pending" none

-- Alice has received 5_000_000 msat and has one payment under way; Bob has issued an invoice.
abbrev pub shop : World
shop = record {
  db = record {
    users =
        record { user_pk = "alice"; invite_id = "i1"; recovery_name = none; created_at = 1000 }
        ∷ record { user_pk = "bob"; invite_id = "i1"; recovery_name = none; created_at = 1000 }
        ∷ [];
    invites = record { id = "i1"; user_limit = 2; expires_at = 9000; created_at = 900 } ∷ [];
    invoices =
        record {
          id = "h1";
          user_pk = "bob";
          amount_msat = some 100000;
          description = "pen";
          pr = "lnbc1";
          expires_at = 9000;
          created_at = 1000;
        }
        ∷ [];
    receives =
        record {
          id = "r1";
          user_pk = "alice";
          amount_msat = 5000000;
          description = "";
          pr = "lnbc3";
          created_at = 1500;
        }
        ∷ [];
    sends = pending_send ∷ [];
    offers = [];
    recoveries = record { id = "c1"; user_pk = "alice"; expires_at = 9000; created_at = 2000 } ∷ [];
  };
  bus = [];
  calls = [];
}

abbrev pub bob_invoice : Bolt11SendRequest
bob_invoice = record {
  invoice = record { payment_hash = "h1"; text = "lnbc1"; description = "pen" };
  amount_msat = 100000;
  ln_address = none;
}

abbrev pub book_invoice : Bolt11SendRequest
book_invoice = record { invoice = foreign_invoice; amount_msat = 1000000; ln_address = none }

-- The node that pays under an id that is taken.
abbrev pub same_id : Env
same_id = record env { node = record node { bolt11_send = λ i amount. Answer.granted "s1" } }

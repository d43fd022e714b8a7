-- ===== src/Tests/Requested.antt =====
-- Payment requests, resolved with an endpoint that takes 1000 to 50_000 msat.
use puncture.Node.{Answer}
use puncture.PaymentRequest.{Http, LnUrlPayResponse}
use puncture.Tests.Data.{foreign_invoice}

abbrev bounds : LnUrlPayResponse
bounds = record { callback = "https://ln.example/pay"; min_sendable = 1000; max_sendable = 50000 }

abbrev http : Http
http = record {
  pay = λ url. Answer.granted (Answer.granted bounds);
  invoice = λ url. Answer.granted (Answer.granted foreign_invoice);
}

-- ===== src/Lib.antt =====
-- Puncture: a daemon that keeps lightning accounts for many users on one embedded node. Users
-- speak to it over an authenticated connection, the operator over a command line and a dashboard,
-- and the node reports what became of payments. This library models the daemon's ledger and
-- everything that changes it, and proves that the ledger is right.
--
-- The parts, and the files they are modelled in:
--   puncture-daemon-db/src/models.rs, schema.rs   Models: a record for each row, a table is the
--     list of its rows in the order of insertion; an insert respects the primary key
--   puncture-daemon/src/db.rs                     Ledger: balances and the status of sends
--   puncture-daemon/src/client/db.rs              ClientDb: the queries of the client interface;
--     ClientDb/Payments: the history of a user and the events that a client gets first
--   puncture-daemon/src/convert.rs                Convert: rows as payments, requests as receipts
--   puncture-daemon/src/client/rpc.rs             Rpc: `check_send` in Rpc/Checks, payments in
--     Rpc/Send, invoices and offers in Rpc/Receive, registration and recovery in Rpc/Account
--   puncture-daemon/src/client/mod.rs             Api: authentication, decoding and dispatch;
--     Api/Connections: the limit on the connections of a user; Api/Drive: the loop of one
--     connection over its requests and events
--   puncture-daemon/src/events.rs                 Events: the bus and the stream of one user
--   puncture-daemon/src/main.rs                   LdkEvents: `process_ldk_event`, and the
--     loop around it in LdkEvents/Loop; Startup: the configuration and the start of the node
--   puncture-daemon/src/cli, puncture-daemon/src/ui, puncture-cli-core/src/lib.rs
--                                                 Admin: invites, recoveries, the list of users
--     (`user_…`); Operator: what the operator does with the node. Operator/Cli has the handlers
--     `ldk_…` of cli/rpc.rs, Operator/Forms the forms of ui/lightning.rs and ui/onchain.rs,
--     Operator/Pages the values their pages show, Operator/Messages the requests and responses
--   puncture-daemon/src/ui                        Dashboard: the markup. Html has the tree that the
--     macro `html!` builds, Html/Forms the forms of a page with the inputs they send, and
--     Html/References its ids and references. Dashboard/Shared is shared.rs with Dashboard/Sats,
--     Dashboard/Lightning, Onchain and Users are the pages with their forms and rows,
--     Dashboard/Answers and Codes what the handlers of forms answer, and Dashboard/Router mod.rs
--   puncture-cli/src/main.rs, puncture-daemon/src/cli/mod.rs
--                                                 Command: the command line, from the match on a
--     command over its route to the handler (Command/Handlers) and back to what is printed
--   puncture-core/src/lib.rs                      Codes: invite and recovery codes
--   puncture-client-core/src/lib.rs               ClientCore: the messages on the wire
--   puncture-payment-request/src/lib.rs           PaymentRequest: what a client pays;
--     `resolve`, and PaymentRequest/Parse the two parsers
--   puncture-client, puncture-client-db           Client: the calls of a client; Client/Store its
--     list of daemons, Client/Reconnect the background task that keeps a connection, and
--     Client/Events the wait for the next event
-- System puts them together: a step is one request, one report of the node or one action of the
-- operator, and Reach holds the states that a fresh daemon reaches. Bank is what the daemon promises
-- about money with no tables in it, accounts and the moves between them. Handler has the state of a
-- request (tables, bus, calls made to the node) and the monad of the handlers; Node has the answers
-- of the node and of the parsers. A module below a part's module (Rpc/Solvency, Rpc/Effects,
-- Api/Atomic, LdkEvents/Settlement and so on) proves what its comment says about the part.
-- Common has the shared helpers, and Tests a small daemon on which the theorems are run.
--
-- How the code is read:
--   * A handler holds the lock of the database from its first query to its end, so it is one step.
--     The test that the user is registered comes before it, under a lock of its own; it is part of
--     the step, since no row of a user is ever deleted.
--     Each change is kept, also where the handler fails later: the actions run on the tables as
--     SQLite does without a transaction around the handler.
--   * An action ends with a value, an error (`Result::Err`) or a panic (`expect`, `unwrap`, an
--     assertion, a failed insert); Common/Outcome has the three.
--   * `u64` and `i64` are 64-bit patterns, and sums and products wrap around as in a release build
--     (Common/Words); `saturating_sub` is written out. The order of `i64` is that of the patterns
--     read as two's complement.
--   * Ids, hashes and keys are their hex text. A handler reads the clock once; the code may read it
--     a few times within one request.
--   * What the operator does with the node is a list of calls, oldest first (Operator): the node's
--     answers are parameters, and an action ends in a value, an error or a panic (Ended).
--   * The node, the parsers of addresses, offers and JSON, HTTP, hex, the binary format of codes,
--     the random ids, the delivery of tokio's channels, the picture of a code and the date of an
--     instant are parameters. What a theorem needs of them it names as a hypothesis.
--   * All functions are total, by recursion on lists. The parsers of payment requests run on as
--     much fuel as the text has bytes and one more, which is enough since a prefix is removed each
--     time. A number in decimal has at most twenty digits, which holds of 64 bits, or thirty-nine,
--     which holds of 128, and at most seven groups of three, which are enough for twenty.
--
-- Not modelled: the QUIC streams, TLS and HTTP around the handlers, the start of the servers and
-- their end, the logs, the key file, the command line's parser and the integration tests.
pub mod Common
pub mod Models
pub mod ClientCore
pub mod Convert
pub mod Ledger
pub mod Node
pub mod Handler
pub mod ClientDb
pub mod Rpc
pub mod Api
pub mod Events
pub mod LdkEvents
pub mod Codes
pub mod PaymentRequest
pub mod Operator
pub mod Command
pub mod Client
pub mod Admin
pub mod System
pub mod Bank
pub mod Html
pub mod Dashboard
pub mod Startup
pub mod Tests

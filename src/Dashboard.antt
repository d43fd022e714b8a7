-- ===== src/Dashboard.antt =====
-- The dashboard's pages and fragments: puncture-daemon/src/ui.
pub mod Sats
pub mod Shared
pub mod Lightning
pub mod Onchain
pub mod Users
pub mod Router
pub mod Answers
pub mod Served
pub mod Resolved
pub mod CloseAgain
pub mod RowForms
pub mod Codes

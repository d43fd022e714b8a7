-- ===== src/Rpc.antt =====
-- puncture-daemon/src/client/rpc.rs: the handlers of the client's methods. `env` holds what a
-- request reads beside the tables. The definitions stand in the children Checks, Actions, Account,
-- Receive and Send, the proofs below those.
pub mod Checks
pub mod Actions
pub mod Account
pub mod Receive
pub mod Send
pub mod Keeps
pub mod Solvency
pub mod Effects

-- ===== src/Tests.antt =====
-- A small daemon, runs of it, and the theorems at inputs that meet their conditions.
mod Data
mod Payments
mod Requests
mod Runs
mod Moves
mod Limits
mod Requested
mod Operators
mod Commands
mod Clients
mod Served
mod Dashboard
mod Task
mod Startup

-- ===== src/Examples.antt =====
-- Runs of the models on small tables, and the theorems of the library applied to them.
pub mod Shop
pub mod Seats
pub mod Moves
pub mod Events
pub mod Polls
pub mod Actions
pub mod Outbox
pub mod Tickets
pub mod Users

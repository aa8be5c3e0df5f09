-- ===== src/Pool.antt =====
-- The account pool: allocation-service/internal/repository over the tables of
-- allocation-service/internal/store/migrations.
pub mod Types
pub mod Tables
pub mod Candidate
pub mod Seats
pub mod Redeem
pub mod Sweep
pub mod Replace
pub mod Reconcile
pub mod Retire
pub mod Process
pub mod Ledger
pub mod Books
pub mod Admin
pub mod Query
pub mod Leave
pub mod CardAction
pub mod Revoke
pub mod Extend
pub mod Message
pub mod Events
pub mod Claim
pub mod Steps

-- ===== src/Pool/Ledger.antt =====
-- The capacity ledger: current_allocations of each account against the allocations that hold a seat.
pub mod Rows
pub mod Release
pub mod Reserve
pub mod Tracked

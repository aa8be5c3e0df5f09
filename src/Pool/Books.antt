-- ===== src/Pool/Books.antt =====
-- The invariant of the pool's tables: the ledger of capacities, the primary keys and the unique
-- index on primary allocations.
pub mod Defs
pub mod Seats
pub mod Settle
pub mod Redeem
pub mod Replace
pub mod Move
pub mod Placed
pub mod Queue
pub mod Agenda
pub mod Retire
pub mod Process
pub mod Sweep

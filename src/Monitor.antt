-- ===== src/Monitor.antt =====
-- The account monitor: internal/monitor over the tables of migrations/, with the outbox of
-- internal/allocationsync that it writes for the account pool.
pub mod Types
pub mod Judge
pub mod Store
pub mod Sound
pub mod Verdicts
pub mod Refresh
pub mod Poll
pub mod Credential
pub mod Rounds

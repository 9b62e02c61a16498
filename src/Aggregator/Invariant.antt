-- ===== src/Aggregator/Invariant.antt =====
-- The invariant of the account aggregator's consent tables (account-aggregator/src/controller.py),
-- over every event of the service.
pub mod Tables
pub mod Frame
pub mod Handlers
pub mod Tasks
pub mod Reach

-- ===== src/Brokers.antt =====
-- internal/brokers.
pub mod Pools
pub mod Registry
pub mod Esb
pub mod Tasks
pub mod Scheduler

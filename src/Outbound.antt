-- ===== src/Outbound.antt =====
-- internal/outbound/manager.go and common.go: the queue of outgoing frames, one for each chat, and
-- the connections that share it.
pub mod Types
pub mod Select
pub mod Schedule
pub mod Batch
pub mod Commit
pub mod Manager
pub mod RootOpen
pub mod Pace
pub mod Fit
pub mod Retry
pub mod Planned
pub mod Sleep
mod Tests

-- ===== src/Tests.antt =====
-- The examples: an event, a queue in memory, and an adapter on which the theorems are applied.
pub mod Disk
pub mod OnPosix
pub mod Fixtures
pub mod OnQueue
pub mod OnCore
pub mod OnAdapter
pub mod OnClient
pub mod OnSession
pub mod OnWatch
pub mod OnWindows
pub mod OnReturns

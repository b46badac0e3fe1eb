-- ===== src/Adapter.antt =====
-- hey_platform/adapter.py: the platform adapter between the watch, the queue and the gateway.
pub mod Access
pub mod Claims
pub mod World
pub mod Drain
pub mod Safety
pub mod Delivery
pub mod Replies
pub mod Retries
pub mod Watching
pub mod Connections
pub mod Stream
pub mod Ready
pub mod Unconfirmed
pub mod Completed
pub mod Lifecycle
pub mod Locking
pub mod Connecting
pub mod Sessions
pub mod Acknowledged

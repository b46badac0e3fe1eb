-- ===== src/Queue.antt =====
-- hey_platform/engine.py: the durable queue of authorized events.
pub mod State
pub mod Persisted
pub mod Sets
pub mod Format
pub mod Loaded
pub mod Spec
pub mod Stored
pub mod Refinement
pub mod Atomic
pub mod Transaction
pub mod Memory
pub mod Handles
pub mod Returns

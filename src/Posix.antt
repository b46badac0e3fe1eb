-- ===== src/Posix.antt =====
-- The POSIX storage of the queue's state file, in hey_platform/engine.py.
pub mod Api
pub mod Parent
pub mod Reading
pub mod Saving
pub mod Kept
pub mod Writing
pub mod Descriptors
pub mod Released
pub mod Files
pub mod Opening
pub mod Found
pub mod Private
pub mod Storing
pub mod Refinement
pub mod Transactions
pub mod Filling
pub mod Replacing

-- ===== src/Windows.antt =====
-- hey_platform/windows_state.py: the storage of the queue's file on Windows, over the native calls.
pub mod Transaction
pub mod Privacy
pub mod Handles
pub mod Operations
pub mod Released

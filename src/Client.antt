-- ===== src/Client.antt =====
-- hey_platform/client.py: the account, the JSON of the sidecar, its commands, and the acknowledgement.
pub mod Account
pub mod Command
pub mod Output
pub mod Answers
pub mod Range
pub mod Watch
pub mod Lines
pub mod Run

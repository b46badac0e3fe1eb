-- ===== src/Core.antt =====
-- hey_platform/core.py: events, the frames of the watch, and thread contexts.
pub mod Event
pub mod Identity
pub mod Frames
pub mod RoundTrip
pub mod Contexts
pub mod Watched

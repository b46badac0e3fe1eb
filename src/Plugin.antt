-- ===== src/Plugin.antt =====
-- The plugin's settings: hey_platform/plugin.py.
pub mod Config
pub mod Settings

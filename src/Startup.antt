-- ===== src/Startup.antt =====
-- main.go: the settings from the environment, and the checks before the exporter starts.
pub mod Settings
pub mod Checks
pub mod Flags
pub mod Main
pub mod MainLaws

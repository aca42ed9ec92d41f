-- ===== src/Text.antt =====
-- The parts of Go's standard library that walk a text byte by byte, as the exporter uses them.
pub mod Runes
pub mod Split
pub mod Number
pub mod Trim
pub mod Query

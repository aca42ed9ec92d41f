-- ===== src/Tables.antt =====
-- The tables of NewRedisExporter (exporter/exporter.go), the maps that it builds from them, and what
-- holds of them.
pub mod Gauges
pub mod Counters
pub mod Descriptions
pub mod Init
pub mod Described
pub mod KeysDescribed

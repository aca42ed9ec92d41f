-- ===== src/Keys.antt =====
-- exporter/keys.go: the options that name keys, SCAN, and the metrics of single keys.
pub mod Parse
pub mod ParseLaws
pub mod Scan
pub mod ScanLaws
pub mod Single
pub mod Pipelined
pub mod ByDb
pub mod Check
pub mod NoPanic

-- ===== src/Latency.antt =====
-- exporter/latency.go. Usec is extractTotalUsecForCommand, Collect the two collectors.
pub mod Usec
pub mod UsecLaws
pub mod UsecSums
pub mod Collect
pub mod NoPanic

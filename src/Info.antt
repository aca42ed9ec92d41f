-- ===== src/Info.antt =====
-- exporter/info.go: extractInfoMetrics and extractClusterInfoMetrics, which read the reply of INFO
-- line by line.
pub mod Fields
pub mod Parse
pub mod Handlers
pub mod Extract
pub mod Sound
pub mod RoundTrip
pub mod Sends
pub mod Panic
pub mod NoPanic

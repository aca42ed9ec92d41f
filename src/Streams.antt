-- ===== src/Streams.antt =====
-- exporter/streams.go. Info is getStreamInfo and what it calls, Collect extractStreamMetrics, NoPanic
-- when it panics.
pub mod Described
pub mod Info
pub mod Collect
pub mod NoPanic

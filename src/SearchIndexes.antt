-- ===== src/SearchIndexes.antt =====
-- exporter/search_indexes.go. Collect is extractSearchIndexesMetrics, NoPanic when it panics.
pub mod Described
pub mod Collect
pub mod NoPanic

-- ===== src/KeyGroups.antt =====
-- exporter/key_groups.go: keys grouped by a pattern, with the number and the memory of each group.
pub mod Word
pub mod Gather
pub mod Overflow
pub mod Ranking
pub mod Sums
pub mod Totals
pub mod GroupSums
pub mod Pages
pub mod Collect
pub mod NoPanic

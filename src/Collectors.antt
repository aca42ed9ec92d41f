-- ===== src/Collectors.antt =====
-- The collectors that send a few metrics each: exporter/slowlog.go, exporter/tile38.go,
-- exporter/lua.go, exporter/modules.go, exporter/search_indexes.go and exporter/nodes.go.
pub mod Described
pub mod Slowlog
pub mod Tile38
pub mod Lua
pub mod Modules
pub mod Nodes
pub mod NodesLaws

-- ===== src/Clients.antt =====
-- The clients of CLIENT LIST (exporter/clients.go).
pub mod Parse
pub mod Address
pub mod Register
pub mod NoPanic

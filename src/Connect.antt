-- ===== src/Connect.antt =====
-- exporter/redis.go. Options is configureOptions and the password map, Dial the two ways to connect,
-- Password which password the connection uses.
pub mod Options
pub mod Dial
pub mod Replaced
pub mod Password

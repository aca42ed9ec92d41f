-- ===== src/Http.antt =====
-- The HTTP side of the exporter (exporter/http.go): who is let in.
pub mod Auth
pub mod AuthLaws
pub mod Handlers
pub mod ScrapeLaws
pub mod DiscoverLaws
pub mod ReloadLaws
pub mod Mux

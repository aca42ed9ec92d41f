-- ===== src/Scrape.antt =====
-- The composition of the collectors: Collect, Describe and scrapeRedisHost of exporter/exporter.go.
-- Outside is what the code takes from elsewhere, Host the scrape, Registry Collect and Describe.
pub mod Outside
pub mod Host
pub mod Parts
pub mod Answers
pub mod NoPanic
pub mod Registry
pub mod Plain
pub mod Up
pub mod Rounds

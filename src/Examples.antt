-- ===== src/Examples.antt =====
-- Concrete servers, configurations and inputs, and the theorems applied to them.
pub mod Server
pub mod Scrape
pub mod Outside
pub mod Scraped
pub mod Handlers
pub mod Started
pub mod Targets
pub mod Parsing
pub mod Keys
pub mod Settings

-- ===== src/Examples.antt =====
-- Concrete runs: each theorem that has conditions, applied where they hold.
pub mod Configs
pub mod Deliveries
pub mod Exchanges
pub mod Gateways
pub mod Limits
pub mod Networks
pub mod Playlists
pub mod Programs
pub mod Reports
pub mod Requests
pub mod Storage
pub mod Workers

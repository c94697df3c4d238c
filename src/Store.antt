-- ===== src/Store.antt =====
-- internal/k8s/store: StreamMonitor objects, read from a cache and written to the API server.
pub mod Objects
pub mod Queries
pub mod Api
pub mod Writes

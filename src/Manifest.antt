-- ===== src/Manifest.antt =====
-- internal/manifest/manifest.go
pub mod Segment
pub mod Playlist
pub mod Variants
pub mod Latest
pub mod Reference
pub mod Fetch
pub mod Mpd
pub mod Dash
pub mod Timeline

-- ===== src/Manifest/Segment.antt =====
-- The segment that internal/manifest/manifest.go hands to the worker. A duration in seconds
-- (`float64`) is a number of milliseconds, and the sequence number (`uint64`) a number.
use youtube_stream_tracker.Prelude.{ℕ, String}

pub data MediaType : Type 0 where
  hls dash : MediaType

pub record Segment : Type 0 where
  pub url : String
  pub duration : ℕ
  pub sequence : ℕ
  pub media_type : MediaType

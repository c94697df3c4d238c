-- ===== src/Handlers.antt =====
-- internal/api/handlers.go: the requests of the HTTP handlers, their answers, and what they stand on.
pub mod Public
pub mod Internal
pub mod Overrides
pub mod Guards
pub mod Listing
pub mod WatchUrl
use youtube_stream_tracker.Store.Objects.{Object}
use youtube_stream_tracker.Prelude.Int.{ℤ}
use youtube_stream_tracker.Store.Api.{Retry, Server}
use youtube_stream_tracker.Model.{
  MonitorWithStats, Monitor, StreamStatus, MonitorConfig, MonitorStatus, ConfigError, HealthStatus,
}
use youtube_stream_tracker.Prelude.{
  or_else, none, some, Bool, get_or, ℕ, List, some, String, Option,
}

-- The part of a request that changes a configuration; an absent field is `none`.
pub record MonitorConfigRequest : Type 0 where
  pub check_interval_sec : Option ℤ
  pub blackout_threshold_sec : Option ℤ
  pub silence_threshold_sec : Option ℤ
  pub silence_db_threshold : Option ℤ
  pub scheduled_start_time : Option ℕ
  pub start_delay_tolerance_sec : Option ℤ

pub record CreateMonitorRequest : Type 0 where
  pub stream_url : String
  pub callback_url : String
  pub config : Option MonitorConfigRequest
  -- The metadata as `json.Marshal` writes it.
  pub metadata : Option String

pub record PatchMonitorRequest : Type 0 where
  pub callback_url : Option String
  pub config : Option MonitorConfigRequest

pub record HealthRequest : Type 0 where
  pub video : HealthStatus
  pub audio : HealthStatus

pub record StatisticsRequest : Type 0 where
  pub total_segments_analyzed : Option ℤ
  pub blackout_events : Option ℤ
  pub silence_events : Option ℤ

-- A word that names no status is the constructor `other`, and an absent one is `other ""`.
pub record UpdateStatusRequest : Type 0 where
  pub status : MonitorStatus
  pub stream_status : StreamStatus
  pub health : Option HealthRequest
  pub statistics : Option StatisticsRequest

-- The answers, by their status and error code.
pub data Response : Type 0 where
  validation_error invalid_url max_monitors duplicate_monitor internal_error not_found : Response
  monitor_not_active : Response
  invalid_config : ConfigError → Response
  monitor_created : Monitor → Response
  monitor_found : MonitorWithStats → Response
  monitor_deleted : (deleted : Bool) → Response
  monitor_updated : Monitor → Response
  status_updated : MonitorStatus → Response
  monitors_listed : List Monitor → (total : ℕ) (limit offset : ℤ) → Response

-- What the handlers call besides the store: `ids`, `validation`, the URL parsers, the clock, and the
-- reconciler's pods, which live in the cluster's state too. `cache` is what the informer shows then.
pub record Handler (api : Server) : Type 1 where
  pub retry : Retry api.S
  pub url_hash : String → String
  pub cache : api.S → List Object
  pub is_valid_monitor_id : String → Bool
  pub is_valid_youtube_watch_url : String → Bool
  pub is_valid_callback_url : String → Bool
  pub new_monitor_id : String
  pub now : ℕ
  pub max_monitors : ℤ
  -- Whether there is a reconciler.
  pub has_reconciler : Bool
  pub create_monitor_pod : Monitor → api.S → Bool × api.S
  pub delete_monitor_pod : String → api.S → Bool × api.S

unfoldable pub apply_config_overrides : MonitorConfig → Option MonitorConfigRequest → MonitorConfig
apply_config_overrides base none = base
apply_config_overrides base (some o) = record {
  check_interval_sec = get_or o.check_interval_sec base.check_interval_sec;
  blackout_threshold_sec = get_or o.blackout_threshold_sec base.blackout_threshold_sec;
  silence_threshold_sec = get_or o.silence_threshold_sec base.silence_threshold_sec;
  silence_db_threshold = get_or o.silence_db_threshold base.silence_db_threshold;
  scheduled_start_time = or_else o.scheduled_start_time base.scheduled_start_time;
  start_delay_tolerance_sec = get_or o.start_delay_tolerance_sec base.start_delay_tolerance_sec;
}

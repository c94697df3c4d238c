-- ===== src/Model.antt =====
-- internal/model/model.go: the domain types that the gateway and the worker share.
-- The Go types for statuses are strings with named constants: a constructor stands for each constant,
-- and `other` holds any other text. `int` fields are integers, since they are only copied and
-- compared. A threshold in decibels (`float64`) is an integer in a fixed unit. Times are
-- milliseconds, durations too.
use youtube_stream_tracker.Prelude.{
  ℕ, String, Bool, true, false, ◌||◌, Option, none, some, str_eq, if◌then◌else◌,
}
use youtube_stream_tracker.Prelude.Int.{ℤ, pos, negsuc, leb_ℤ, ltb_ℤ}

pub data MonitorStatus : Type 0 where
  initializing waiting monitoring scheduled completed stopped error : MonitorStatus
  other : String → MonitorStatus

abbrev pub status_eq : MonitorStatus → MonitorStatus → Bool
status_eq MonitorStatus.initializing MonitorStatus.initializing = true
status_eq MonitorStatus.waiting MonitorStatus.waiting = true
status_eq MonitorStatus.monitoring MonitorStatus.monitoring = true
status_eq MonitorStatus.scheduled MonitorStatus.scheduled = true
status_eq MonitorStatus.completed MonitorStatus.completed = true
status_eq MonitorStatus.stopped MonitorStatus.stopped = true
status_eq MonitorStatus.error MonitorStatus.error = true
status_eq (MonitorStatus.other a) (MonitorStatus.other b) = str_eq a b
status_eq _ _ = false

unfoldable pub is_active : MonitorStatus → Bool
is_active s =
    status_eq s MonitorStatus.initializing
    || status_eq s MonitorStatus.waiting
    || status_eq s MonitorStatus.monitoring

pub data HealthStatus : Type 0 where
  ok warning error unknown : HealthStatus
  other : String → HealthStatus

pub data StreamStatus : Type 0 where
  unknown scheduled live ended : StreamStatus
  other : String → StreamStatus

pub record MonitorConfig : Type 0 where
  pub check_interval_sec : ℤ
  pub blackout_threshold_sec : ℤ
  pub silence_threshold_sec : ℤ
  pub silence_db_threshold : ℤ
  pub scheduled_start_time : Option ℕ
  pub start_delay_tolerance_sec : ℤ

pub data ConfigError : Type 0 where
  check_interval blackout_threshold silence_threshold db_threshold start_delay : ConfigError

-- `none` is the nil error.
unfoldable pub validate : MonitorConfig → Option ConfigError
validate c =
    if leb_ℤ c.check_interval_sec (pos 0)
    then some ConfigError.check_interval
    else if ltb_ℤ c.blackout_threshold_sec (pos 0)
    then some ConfigError.blackout_threshold
    else if ltb_ℤ c.silence_threshold_sec (pos 0)
    then some ConfigError.silence_threshold
    else if ltb_ℤ (pos 0) c.silence_db_threshold
    then some ConfigError.db_threshold
    else if ltb_ℤ c.start_delay_tolerance_sec (pos 0)
    then some ConfigError.start_delay
    else none

unfoldable pub default_monitor_config : MonitorConfig
default_monitor_config = record {
  check_interval_sec = pos 10;
  blackout_threshold_sec = pos 30;
  silence_threshold_sec = pos 30;
  silence_db_threshold = negsuc 49;
  scheduled_start_time = none;
  start_delay_tolerance_sec = pos 300;
}

pub record Monitor : Type 0 where
  pub id : String
  pub uid : String
  pub stream_url : String
  pub callback_url : String
  pub config : MonitorConfig
  pub metadata : Option String
  pub status : MonitorStatus
  pub pod_name : Option String
  pub created_at : ℕ
  pub updated_at : ℕ

pub record MonitorStats : Type 0 where
  pub monitor_id : String
  pub total_segments : ℤ
  pub blackout_events : ℤ
  pub silence_events : ℤ
  pub last_check_at : Option ℕ
  pub video_health : HealthStatus
  pub audio_health : HealthStatus
  pub stream_status : StreamStatus

pub record MonitorWithStats : Type 0 where
  pub monitor : Monitor
  pub stats : Option MonitorStats

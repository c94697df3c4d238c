-- ===== src/Store/Objects.antt =====
-- internal/k8s/apis/streamtracker/v1alpha1/types.go and internal/k8s/store/convert.go: the custom
-- resource, and its conversion to the domain types. The fields of an object are those that the
-- store reads or writes. `phase` is absent until it is first set. Texts stand for JSON values.
-- The API server keeps times to the second: a time here is one that is a whole second.
pub mod Laws
use youtube_stream_tracker.Prelude.Int.{ℤ}
use youtube_stream_tracker.Model.{
  MonitorConfig, Monitor, MonitorStats, StreamStatus, MonitorStatus, HealthStatus,
}
use youtube_stream_tracker.Prelude.{
  false, str_eq, Bool, ℕ, none, some, get_or, String, Option, if◌then◌else◌,
}

pub record Spec : Type 0 where
  pub stream_url : String
  pub callback_url : String
  pub check_interval_sec : ℤ
  pub blackout_threshold_sec : ℤ
  pub silence_threshold_sec : ℤ
  pub silence_db_threshold : ℤ
  pub scheduled_start_time : Option ℕ
  pub start_delay_tolerance_sec : ℤ
  pub metadata : Option String

pub record Status : Type 0 where
  pub phase : Option MonitorStatus
  pub pod_name : String
  pub total_segments : ℤ
  pub blackout_events : ℤ
  pub silence_events : ℤ
  pub video_health : HealthStatus
  pub audio_health : HealthStatus
  pub stream_status : StreamStatus
  pub last_check_at : Option ℕ

pub record Object : Type 0 where
  pub name : String
  pub uid : String
  pub creation_time : ℕ
  pub resource_version : String
  pub stream_url_hash : String
  pub spec : Spec
  pub status : Status

abbrev pub nonempty : String → Option String
nonempty s = if str_eq s "" then none else some s

-- `string(phase)`; an absent phase reads as the empty text.
abbrev pub phase_or_empty : Option MonitorStatus → MonitorStatus
phase_or_empty none = MonitorStatus.other ""
phase_or_empty (some s) = s

-- `StreamMonitorSpecFromConfig`; `Create` adds the metadata.
unfoldable pub spec_from_config : String → String → MonitorConfig → Spec
spec_from_config stream_url callback_url cfg = record {
  stream_url = stream_url;
  callback_url = callback_url;
  check_interval_sec = cfg.check_interval_sec;
  blackout_threshold_sec = cfg.blackout_threshold_sec;
  silence_threshold_sec = cfg.silence_threshold_sec;
  silence_db_threshold = cfg.silence_db_threshold;
  scheduled_start_time = cfg.scheduled_start_time;
  start_delay_tolerance_sec = cfg.start_delay_tolerance_sec;
  metadata = none;
}

unfoldable pub config_of : Spec → MonitorConfig
config_of s = record {
  check_interval_sec = s.check_interval_sec;
  blackout_threshold_sec = s.blackout_threshold_sec;
  silence_threshold_sec = s.silence_threshold_sec;
  silence_db_threshold = s.silence_db_threshold;
  scheduled_start_time = s.scheduled_start_time;
  start_delay_tolerance_sec = s.start_delay_tolerance_sec;
}

unfoldable pub to_monitor : Object → Monitor
to_monitor o = record {
  id = o.name;
  uid = o.uid;
  stream_url = o.spec.stream_url;
  callback_url = o.spec.callback_url;
  config = config_of o.spec;
  metadata = elim o.spec.metadata [ none ↦ none | some m ↦ nonempty m ];
  status = phase_or_empty o.status.phase;
  pod_name = nonempty o.status.pod_name;
  created_at = o.creation_time;
  updated_at = o.creation_time;
}

unfoldable pub to_stats : Object → MonitorStats
to_stats o = record {
  monitor_id = o.name;
  total_segments = o.status.total_segments;
  blackout_events = o.status.blackout_events;
  silence_events = o.status.silence_events;
  last_check_at = o.status.last_check_at;
  video_health = o.status.video_health;
  audio_health = o.status.audio_health;
  stream_status = o.status.stream_status;
}

abbrev pub health_is_empty : HealthStatus → Bool
health_is_empty (HealthStatus.other s) = str_eq s ""
health_is_empty _ = false

abbrev pub stream_is_empty : StreamStatus → Bool
stream_is_empty (StreamStatus.other s) = str_eq s ""
stream_is_empty _ = false

-- The writes to the fields of a live object that store.go's methods make before they send it back.
unfoldable pub set_phase : MonitorStatus → Object → Object
set_phase s o = record o { status = record o.status { phase = some s } }

unfoldable pub set_pod_name : String → Object → Object
set_pod_name n o = record o { status = record o.status { pod_name = n } }

-- `UpdateStats`: an empty status leaves the field as it is, and so does a nil time.
unfoldable pub set_stats : MonitorStats → Object → Object
set_stats st o = record o {
  status = record o.status {
    total_segments = st.total_segments;
    blackout_events = st.blackout_events;
    silence_events = st.silence_events;
    video_health =
        if health_is_empty st.video_health then o.status.video_health else st.video_health;
    audio_health =
        if health_is_empty st.audio_health then o.status.audio_health else st.audio_health;
    stream_status =
        if stream_is_empty st.stream_status then o.status.stream_status else st.stream_status;
    last_check_at = elim st.last_check_at [ none ↦ o.status.last_check_at | some t ↦ some t ];
  };
}

pub record UpdateMonitorParams : Type 0 where
  pub callback_url : Option String
  pub config : Option MonitorConfig

unfoldable pub set_config : MonitorConfig → Spec → Spec
set_config cfg s = record s {
  check_interval_sec = cfg.check_interval_sec;
  blackout_threshold_sec = cfg.blackout_threshold_sec;
  silence_threshold_sec = cfg.silence_threshold_sec;
  silence_db_threshold = cfg.silence_db_threshold;
  start_delay_tolerance_sec = cfg.start_delay_tolerance_sec;
  scheduled_start_time = elim cfg.scheduled_start_time [
    | none ↦ s.scheduled_start_time
    | some t ↦ some t
  ];
}

-- The fields that `UpdateMonitor` sets.
unfoldable pub set_monitor : UpdateMonitorParams → Object → Object
set_monitor p o = record o {
  spec =
      let s : Spec = record o.spec { callback_url = get_or p.callback_url o.spec.callback_url } in
      elim p.config [ none ↦ s | some cfg ↦ set_config cfg s ];
}

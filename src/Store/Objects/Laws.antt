-- ===== src/Store/Objects/Laws.antt =====
-- internal/k8s/store: what the conversions and the field writes come to.
use youtube_stream_tracker.Model.{MonitorConfig, MonitorStats}
use youtube_stream_tracker.Prelude.{or_else, some, none, get_or, String, if◌then◌else◌, arith, ◌≡◌}
use youtube_stream_tracker.Store.Objects.{
  stream_is_empty, health_is_empty, Object, UpdateMonitorParams, to_monitor, to_stats, config_of,
  spec_from_config, set_monitor, set_config, set_stats,
}

-- A monitor's URLs and whole configuration come back from the spec that `Create` builds.
to_monitor-spec_from_config :
    (o : Object) (stream_url callback_url : String) (cfg : MonitorConfig)
    → o.spec ≡ spec_from_config stream_url callback_url cfg
    → ((to_monitor o).config ≡ cfg)
      × ((to_monitor o).stream_url ≡ stream_url)
      × ((to_monitor o).callback_url ≡ callback_url)
unfolding to_monitor config_of spec_from_config
to_monitor-spec_from_config o stream_url callback_url cfg h = ground arith

-- `UpdateStats` writes the counters, and each of the other fields that is not left empty; an
-- empty one, the phase, the pod's name and the spec stay as they are.
pub to_stats-set_stats :
    (st : MonitorStats) (o : Object)
    → let o' = set_stats st o in
      let s = to_stats o' in
      ((s.total_segments ≡ st.total_segments)
        × (s.blackout_events ≡ st.blackout_events)
        × (s.silence_events ≡ st.silence_events))
      × ((s.video_health ≡ (
            if health_is_empty st.video_health then (to_stats o).video_health else st.video_health))
          × (s.audio_health ≡ (
              if health_is_empty st.audio_health
              then (to_stats o).audio_health
              else st.audio_health))
          × (s.stream_status ≡ (
              if stream_is_empty st.stream_status
              then (to_stats o).stream_status
              else st.stream_status)))
      × (s.last_check_at ≡ or_else st.last_check_at (to_stats o).last_check_at)
      × (to_monitor o' ≡ to_monitor o)
unfolding set_stats to_stats to_monitor
to_stats-set_stats st o = ground arith

-- `UpdateMonitor` sets the configuration that it is given, but for a start time that is left out,
-- which stays; without a configuration it stays whole. The stream, the status and the identity of
-- the monitor never change.
pub to_monitor-set_monitor :
    (p : UpdateMonitorParams) (o : Object)
    → let m = to_monitor o in
      let m' = to_monitor (set_monitor p o) in
      (m'.callback_url ≡ get_or p.callback_url m.callback_url)
      × (m'.config ≡ elim p.config as (λ x. MonitorConfig) [
        | none ↦ m.config
        | some cfg ↦ record cfg {
          scheduled_start_time = or_else cfg.scheduled_start_time m.config.scheduled_start_time;
        }
      ])
      × ((m'.stream_url ≡ m.stream_url) × (m'.status ≡ m.status) × (m'.id ≡ m.id))
unfolding set_monitor set_config to_monitor config_of
to_monitor-set_monitor p o = ground arith

-- ===== src/Handlers/Internal.antt =====
-- internal/api/handlers.go: the workers' endpoints, UpdateMonitorStatus and TerminateMonitor.
use youtube_stream_tracker.Store.Api.{fails, StoreError}
use youtube_stream_tracker.Handlers.Public.{clean_up_pod}
use youtube_stream_tracker.Store.Queries.{get_from_cache}
use youtube_stream_tracker.Store.Writes.{update_stats, delete, update_phase}
use youtube_stream_tracker.Store.Objects.{to_stats, stream_is_empty, health_is_empty}
use youtube_stream_tracker.Handlers.{
  internal_error, monitor_deleted, status_updated, validation_error, not_found, Response,
  HealthRequest, Handler, UpdateStatusRequest,
}
use youtube_stream_tracker.Store.Api.{done, Server}
use youtube_stream_tracker.Model.{MonitorStats, MonitorStatus, StreamStatus, HealthStatus}
use youtube_stream_tracker.Prelude.{
  get_or, none, is_some, true, some, not, false, String, ℕ, Bool, Option, ◌&&◌, if◌then◌else◌, ◌||◌,
}

-- The tables of words that are allowed.
abbrev pub is_valid_monitor_status : MonitorStatus → Bool
is_valid_monitor_status MonitorStatus.scheduled = false
is_valid_monitor_status (MonitorStatus.other s) = false
is_valid_monitor_status _ = true

abbrev pub is_valid_stream_status : StreamStatus → Bool
is_valid_stream_status (StreamStatus.other s) = false
is_valid_stream_status _ = true

abbrev pub is_valid_health_status : HealthStatus → Bool
is_valid_health_status (HealthStatus.other s) = false
is_valid_health_status _ = true

abbrev pub health_is_invalid : HealthStatus → Bool
health_is_invalid x = not (health_is_empty x) && not (is_valid_health_status x)

abbrev pub health_request_is_invalid : Option HealthRequest → Bool
health_request_is_invalid none = false
health_request_is_invalid (some r) = health_is_invalid r.video || health_is_invalid r.audio

-- The statistics with what the request brings, at a time.
unfoldable pub merge_stats : UpdateStatusRequest → (now : ℕ) → MonitorStats → MonitorStats
merge_stats req now st = record {
  monitor_id = st.monitor_id;
  total_segments = elim req.statistics [
    | none ↦ st.total_segments
    | some r ↦ get_or r.total_segments_analyzed st.total_segments
  ];
  blackout_events = elim req.statistics [
    | none ↦ st.blackout_events
    | some r ↦ get_or r.blackout_events st.blackout_events
  ];
  silence_events = elim req.statistics [
    | none ↦ st.silence_events
    | some r ↦ get_or r.silence_events st.silence_events
  ];
  last_check_at = some now;
  video_health = elim req.health [
    | none ↦ st.video_health
    | some r ↦ if health_is_empty r.video then st.video_health else r.video
  ];
  audio_health = elim req.health [
    | none ↦ st.audio_health
    | some r ↦ if health_is_empty r.audio then st.audio_health else r.audio
  ];
  stream_status = if stream_is_empty req.stream_status then st.stream_status else req.stream_status;
}

module _ (api : Server) (h : Handler api) where
  open api use {S}

  -- The second write, of what the cache holds with the request's values. Its errors are logged.
  unfoldable pub update_reported_stats : String → UpdateStatusRequest → S → S
  update_reported_stats id req s =
      if is_some req.health || is_some req.statistics || not (stream_is_empty req.stream_status)
      then elim (get_from_cache id (h.cache s)) [
        | none ↦ s
        | some o ↦ (update_stats api h.retry (merge_stats req h.now (to_stats o)) s).1
      ]
      else s

  unfoldable pub write_reported_status : String → UpdateStatusRequest → S → Response × S
  write_reported_status id req s =
      let (r, s') = update_phase api h.retry id req.status s in
      elim r [
        | done t ↦ (status_updated req.status, update_reported_stats id req s')
        | fails StoreError.monitor_not_found ↦ (not_found, s')
        | fails x ↦ (internal_error, s')
      ]

  unfoldable pub update_monitor_status : String → Option UpdateStatusRequest → S → Response × S
  update_monitor_status id none s =
      (if h.is_valid_monitor_id id then validation_error else not_found, s)
  update_monitor_status id (some req) s =
      if not (h.is_valid_monitor_id id)
      then (not_found, s)
      else if not (is_valid_monitor_status req.status)
      then (validation_error, s)
      else if not (stream_is_empty req.stream_status)
          && not (is_valid_stream_status req.stream_status)
      then (validation_error, s)
      else if health_request_is_invalid req.health
      then (validation_error, s)
      else write_reported_status id req s

  -- `binds` is whether the body, which only brings a reason for the log, can be read.
  unfoldable pub terminate_monitor : String → (binds : Bool) → S → Response × S
  terminate_monitor id binds s =
      if not (h.is_valid_monitor_id id)
      then (not_found, s)
      else if not binds
      then (validation_error, s)
      else (let (r, s') = delete api id s in
          elim r [
            | done t ↦ (monitor_deleted true, clean_up_pod api h id s')
            | fails StoreError.monitor_not_found ↦ (monitor_deleted false, clean_up_pod api h id s')
            | fails x ↦ (internal_error, s')
          ])

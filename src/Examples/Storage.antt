-- ===== src/Examples/Storage.antt =====
-- internal/k8s/store at a server that keeps one object.
use youtube_stream_tracker.Store.Queries.Pages.{list-page}
use youtube_stream_tracker.Prelude.Int.{negsuc, pos}
use youtube_stream_tracker.Store.Writes.Conditions.{
  update_status_with_condition-Swapped, update_monitor-Patched, Patched, Swapped,
}
use youtube_stream_tracker.Store.Queries.{clamp_limit, list, objects_listed, ListParams}
use youtube_stream_tracker.Store.Api.{is_already_exists, answered, is_not_found, err, Retry, Server}
use youtube_stream_tracker.Model.{
  StreamStatus, HealthStatus, MonitorStatus, Monitor, MonitorConfig, MonitorStats, is_active,
}
use youtube_stream_tracker.Store.Objects.{
  set_phase, set_monitor, to_monitor, Object, UpdateMonitorParams,
}
use youtube_stream_tracker.Store.Writes.{
  CreateMonitorParams, update_status_with_condition, update_monitor, write_monitor,
}
use youtube_stream_tracker.Prelude.{
  true, min, take, str_eq, map, Option, some, length, none, List, ◌-◌, if◌then◌else◌, ◌≤◌, ◌∷◌,
  refl, [], ◌≡◌,
}

abbrev pub memory : Server
memory = record {
  S = Option Object;
  get_object = λ id s. elim s [
    | none ↦ err is_not_found
    | some o ↦ if str_eq o.name id then answered o else err is_not_found
  ];
  create_object =
      λ o s. elim s [ none ↦ (answered o, some o) | some p ↦ (err is_already_exists, some p) ];
  update_status = λ o s. (answered o, some o);
  update_object = λ o s. (answered o, some o);
  delete_object = λ id s. (answered tt, none);
  is_indexed = λ s. true;
  to_unstructured = λ o. true;
  sets_phase = λ o. true;
  from_unstructured = λ o. true;
}

-- One attempt and no more.
abbrev pub once : Retry (Option Object)
once = record { on_conflict = λ f s. f s; is_attempt = λ f s. (s, refl) }

abbrev pub sample_config : MonitorConfig
sample_config = record {
  check_interval_sec = pos 10;
  blackout_threshold_sec = pos 30;
  silence_threshold_sec = pos 30;
  silence_db_threshold = negsuc 49;
  scheduled_start_time = some 1700000000;
  start_delay_tolerance_sec = pos 300;
}

abbrev pub sample_object : Object
sample_object = record {
  name = "mon-1";
  uid = "u";
  creation_time = 5;
  resource_version = "1";
  stream_url_hash = "h";
  spec = record {
    stream_url = "https://www.youtube.com/watch?v=abcdefghijk";
    callback_url = "https://example.com/hook";
    check_interval_sec = pos 10;
    blackout_threshold_sec = pos 30;
    silence_threshold_sec = pos 30;
    silence_db_threshold = negsuc 49;
    scheduled_start_time = some 1700000000;
    start_delay_tolerance_sec = pos 300;
    metadata = none;
  };
  status = record {
    phase = some MonitorStatus.monitoring;
    pod_name = "pod";
    total_segments = pos 3;
    blackout_events = pos 1;
    silence_events = pos 0;
    video_health = HealthStatus.ok;
    audio_health = HealthStatus.warning;
    stream_status = StreamStatus.live;
    last_check_at = some 9;
  };
}

abbrev reported_stats : MonitorStats
reported_stats = record {
  monitor_id = "mon-1";
  total_segments = pos 4;
  blackout_events = pos 1;
  silence_events = pos 0;
  last_check_at = none;
  video_health = HealthStatus.other "";
  audio_health = HealthStatus.ok;
  stream_status = StreamStatus.live;
}

abbrev new_callback : UpdateMonitorParams
new_callback = record { callback_url = some "https://example.com/new"; config = some sample_config }

update_status_with_condition-Swapped_example :
    Swapped memory "mon-1" MonitorStatus.monitoring MonitorStatus.error
      (some sample_object)
      (some (set_phase MonitorStatus.error sample_object))
unfolding update_status_with_condition
update_status_with_condition-Swapped_example =
    update_status_with_condition-Swapped memory "mon-1" MonitorStatus.monitoring MonitorStatus.error
      (some sample_object) (some (set_phase MonitorStatus.error sample_object)) refl

update_monitor-Patched_example :
    Patched memory "mon-1" new_callback
      (to_monitor (set_monitor new_callback sample_object))
      (some (set_monitor new_callback sample_object))
unfolding update_monitor write_monitor is_active
update_monitor-Patched_example =
    update_monitor-Patched memory once "mon-1" new_callback
      (to_monitor (set_monitor new_callback sample_object)) (some sample_object)
      (some (set_monitor new_callback sample_object)) refl

abbrev sample_params : CreateMonitorParams
sample_params = record {
  id = "mon-2";
  stream_url = "https://www.youtube.com/watch?v=abcdefghijk";
  callback_url = "https://example.com/hook";
  config = sample_config;
  metadata = none;
  initial_phase = MonitorStatus.initializing;
}

abbrev page_params : ListParams
page_params = record { status = some MonitorStatus.monitoring; limit = negsuc 4; offset = pos 0 }

list-page_example :
    let monitors : List Monitor =
      map to_monitor (objects_listed page_params (sample_object ∷ [])) in
    (((list (λ ms. ms) page_params (sample_object ∷ [])).0)
      ≡ take (clamp_limit (negsuc 4)) monitors)
    × (length ((list (λ ms. ms) page_params (sample_object ∷ [])).0)
        ≡ min (clamp_limit (negsuc 4)) (length monitors - 0))
    × (length ((list (λ ms. ms) page_params (sample_object ∷ [])).0) ≤ 100)
    × (((list (λ ms. ms) page_params (sample_object ∷ [])).1) ≡ length monitors)
list-page_example = list-page (λ ms. ms) page_params (sample_object ∷ [])

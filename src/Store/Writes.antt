-- ===== src/Store/Writes.antt =====
-- internal/k8s/store/store.go: the writes. They go to the API server, not to the cache.
pub mod Conditions
pub mod Creation
use youtube_stream_tracker.Prelude.Int.{pos}
use youtube_stream_tracker.Model.{
  StreamStatus, HealthStatus, status_eq, is_active, Monitor, MonitorStats, MonitorConfig,
  MonitorStatus,
}
use youtube_stream_tracker.Store.Objects.{
  set_monitor, to_monitor, set_stats, set_phase, spec_from_config, UpdateMonitorParams,
  set_pod_name, Object,
}
use youtube_stream_tracker.Store.Api.{
  failure, is_conflict, is_already_exists, answered, monitor_not_active, duplicate_monitor,
  is_not_found, done, rejected, refused, fails, store_failure, wrote, err, monitor_not_found,
  Result, StoreError, Retry, Reply, Attempt, Server, ApiError,
}
use youtube_stream_tracker.Prelude.{
  not, true, some, none, false, Option, Bool, String, List, ◌∷◌, [], if◌then◌else◌, ◌||◌,
}

-- The live object of `getLive`, and the server's answer to its write.
abbrev pub wrote_object : {S A : Type 0} → (Object → A) → Reply Object × S → Attempt A × S
wrote_object f (answered o, s) = (wrote (f o), s)
wrote_object f (err x, s) = (rejected x, s)

abbrev pub live_error : ApiError → StoreError
live_error is_not_found = monitor_not_found
live_error x = store_failure x

-- The error of a retried write as the methods return it.
abbrev pub settle : {S A : Type 0} → Attempt A × S → Result A × S
settle (wrote a, s) = (done a, s)
settle (refused x, s) = (fails x, s)
settle (rejected is_not_found, s) = (fails monitor_not_found, s)
settle (rejected x, s) = (fails (store_failure x), s)

abbrev pub has_phase : MonitorStatus → Object → Bool
has_phase s o = elim o.status.phase [ none ↦ false | some p ↦ status_eq p s ]

abbrev pub has_active_phase : Object → Bool
has_active_phase o = elim o.status.phase [ none ↦ false | some p ↦ is_active p ]

abbrev pub any_active : List Object → Bool
any_active [] = false
any_active (o ∷ os) = has_active_phase o || any_active os

pub record CreateMonitorParams : Type 0 where
  pub id : String
  pub stream_url : String
  pub callback_url : String
  pub config : MonitorConfig
  pub metadata : Option String
  pub initial_phase : MonitorStatus

unfoldable pub new_object : (String → String) → CreateMonitorParams → Object
new_object url_hash p = record {
  name = p.id;
  uid = "";
  creation_time = 0;
  resource_version = "";
  stream_url_hash = url_hash p.stream_url;
  spec = record (spec_from_config p.stream_url p.callback_url p.config) { metadata = p.metadata };
  status = record {
    phase = none;
    pod_name = "";
    total_segments = pos 0;
    blackout_events = pos 0;
    silence_events = pos 0;
    video_health = HealthStatus.other "";
    audio_health = HealthStatus.other "";
    stream_status = StreamStatus.other "";
    last_check_at = none;
  };
}

module _ (api : Server) where
  open api use {
    S, get_object, create_object, update_status, update_object, delete_object, is_indexed,
    to_unstructured, sets_phase, from_unstructured,
  }

  -- Reads the live object and writes its status, changed by `f`.
  unfoldable pub write_status : String → (Object → Object) → S → Attempt (Unit {0}) × S
  write_status id f s = elim (get_object id s) [
    | err x ↦ (refused (live_error x), s)
    | answered live ↦ wrote_object (λ o. tt) (update_status (f live) s)
  ]

  -- Whether the write was made; a lost race is no error.
  abbrev pub condition_result : Reply Object × S → Result Bool × S
  condition_result (answered o, s) = (done true, s)
  condition_result (err is_conflict, s) = (done false, s)
  condition_result (err is_not_found, s) = (done false, s)
  condition_result (err x, s) = (fails (store_failure x), s)

  unfoldable pub update_status_with_condition :
      String → (current next : MonitorStatus) → S → Result Bool × S
  update_status_with_condition id current next s = elim (get_object id s) [
    | err is_not_found ↦ (done false, s)
    | err x ↦ (fails (store_failure x), s)
    | answered live ↦
        if has_phase current live
        then condition_result (update_status (set_phase next live) s)
        else (done false, s)
  ]

  unfoldable pub delete : String → S → Result (Unit {0}) × S
  delete id s =
      let (r, s') = delete_object id s in
      elim r [ answered t ↦ (done tt, s') | err x ↦ (fails (live_error x), s') ]

  -- One attempt of `UpdateMonitor`: the object must be active each time.
  unfoldable pub write_monitor : String → UpdateMonitorParams → S → Attempt Monitor × S
  write_monitor id p s = elim (get_object id s) [
    | err x ↦ (refused (live_error x), s)
    | answered live ↦
        if has_active_phase live
        then wrote_object to_monitor (update_object (set_monitor p live) s)
        else (refused monitor_not_active, s)
  ]

  -- The status is set by a second call; where that fails the object is deleted again, but not where the phase
  -- cannot be set in it or the answer cannot be read.
  unfoldable pub set_initial_phase : CreateMonitorParams → Object → S → Result Monitor × S
  set_initial_phase p created s =
      if not (sets_phase created)
      then (fails (store_failure failure), s)
      else (let (r, s') = update_status (set_phase p.initial_phase created) s in
          elim r [
            | answered o ↦ (
              if from_unstructured o then done (to_monitor o) else fails (store_failure failure),
              s',
            )
            | err x ↦ (fails (store_failure x), (delete_object p.id s').1)
          ])

  -- `existing` are the cached objects with the same hash.
  unfoldable pub create :
      (String → String) → List Object → CreateMonitorParams → S → Result Monitor × S
  create url_hash existing p s =
      if not (is_indexed s)
      then (fails (store_failure failure), s)
      else if any_active existing
      then (fails duplicate_monitor, s)
      else if not (to_unstructured (new_object url_hash p))
      then (fails (store_failure failure), s)
      else (let (r, s') = create_object (new_object url_hash p) s in
          elim r [
            | answered o ↦ set_initial_phase p o s'
            | err is_already_exists ↦ (fails duplicate_monitor, s')
            | err x ↦ (fails (store_failure x), s')
          ])

module _ (api : Server) (retry : Retry api.S) where
  open api use {S}

  -- `UpdateStatus`, `UpdatePodName` and `UpdateStats`.
  unfoldable pub update_phase : String → MonitorStatus → S → Result (Unit {0}) × S
  update_phase id status s = settle (retry.on_conflict (write_status api id (set_phase status)) s)

  unfoldable pub update_pod_name : String → String → S → Result (Unit {0}) × S
  update_pod_name id name s = settle (retry.on_conflict (write_status api id (set_pod_name name)) s)

  unfoldable pub update_stats : MonitorStats → S → Result (Unit {0}) × S
  update_stats stats s =
      settle (retry.on_conflict (write_status api stats.monitor_id (set_stats stats)) s)

  unfoldable pub update_monitor : String → UpdateMonitorParams → S → Result Monitor × S
  update_monitor id p s = settle (retry.on_conflict (write_monitor api id p) s)

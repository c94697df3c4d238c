-- ===== src/Examples/Requests.antt =====
-- internal/api/handlers.go, internal/k8s/reconcile.go and internal/k8s/watcher.go at concrete requests.
use youtube_stream_tracker.Store.Writes.Conditions.{Swapped}
use youtube_stream_tracker.Reconcile.Zombies.{reconcile_startup-zombie_pods}
use youtube_stream_tracker.Prelude.Int.{pos}
use youtube_stream_tracker.Reconcile.{reconcile_startup, Cluster}
use youtube_stream_tracker.Watcher.{
  handle_pod_event-sent, PodPhase, PodEvent, Watched, handle_pod_event,
}
use youtube_stream_tracker.Handlers.Guards.{create_monitor-Created, Created}
use youtube_stream_tracker.Examples.Storage.{once, sample_object, memory}
use youtube_stream_tracker.Handlers.{Handler, CreateMonitorRequest, apply_config_overrides}
use youtube_stream_tracker.Handlers.Public.{
  create_params, create_monitor, store_monitor, start_worker,
}
use youtube_stream_tracker.Store.Queries.{
  get_active_monitors, count_active_monitors, get_by_id, by_phase, by_hash,
}
use youtube_stream_tracker.Model.{
  is_active, Monitor, MonitorStatus, validate, default_monitor_config,
}
use youtube_stream_tracker.Store.Writes.{new_object, set_initial_phase, create}
use youtube_stream_tracker.Store.Objects.{set_phase, Object, to_monitor}
use youtube_stream_tracker.Prelude.{Option, false, true, none, some, ◌⊎◌, ◌∷◌, [], refl, ◌≡◌}

abbrev pub handler : Handler memory
handler = record {
  retry = once;
  url_hash = λ u. u;
  cache = λ s. elim s [ none ↦ [] | some o ↦ o ∷ [] ];
  is_valid_monitor_id = λ id. true;
  is_valid_youtube_watch_url = λ u. true;
  is_valid_callback_url = λ u. true;
  new_monitor_id = "mon-2";
  now = 100;
  max_monitors = pos 5;
  has_reconciler = true;
  create_monitor_pod = λ m s. (true, s);
  delete_monitor_pod = λ id s. (true, s);
}

abbrev pub request : CreateMonitorRequest
request = record {
  stream_url = "https://www.youtube.com/watch?v=abcdefghijk";
  callback_url = "https://example.com/hook";
  config = none;
  metadata = none;
}

abbrev new_monitor : Object
new_monitor =
    set_phase MonitorStatus.initializing
      (new_object (λ u. u) (create_params memory handler request))

create_monitor-Created_example : Created memory handler request (to_monitor new_monitor) none
unfolding create_params create_monitor store_monitor start_worker create set_initial_phase validate
    default_monitor_config apply_config_overrides by_hash count_active_monitors by_phase
create_monitor-Created_example =
    create_monitor-Created memory handler request (to_monitor new_monitor) none (some new_monitor)
      refl

-- One pod belongs to the monitor, and one to none.
abbrev pub cluster : Cluster memory
cluster = record {
  list_worker_pods = λ s. some (
      record { name = "a"; monitor_id = "mon-1" }
      ∷ record { name = "b"; monitor_id = "mon-9" }
      ∷ []);
  delete_worker_pod = λ id s. (true, s);
  is_timed_out = λ s. false;
  in_map_order = λ ms. ms;
}

reconcile_startup-zombie_pods_example :
    (reconcile_startup memory cluster
      (get_active_monitors (λ ms. ms) (sample_object ∷ []))
      (some sample_object)).result.zombie_pods
    ≡ 0
reconcile_startup-zombie_pods_example =
    reconcile_startup-zombie_pods memory cluster (λ ms. ms) (sample_object ∷ [])
      (some sample_object) (λ ms h. h)

abbrev pub failed_pod : PodEvent
failed_pod = record { phase = PodPhase.failed; monitor_id = "mon-1" }

abbrev pub unseen : Watched memory
unseen = record { sent = []; server = some sample_object }

handle_pod_event-sent_example :
    ((handle_pod_event memory cluster (sample_object ∷ []) failed_pod unseen).sent ≡ [])
    ⊎ ((m : Monitor) × (s : Option Object) × ((handle_pod_event memory cluster
            (sample_object ∷ [])
            failed_pod
            unseen).sent
          ≡ m ∷ [])
        × (get_by_id "mon-1" (sample_object ∷ []) ≡ some m)
        × (is_active m.status ≡ true)
        × Swapped memory "mon-1" m.status MonitorStatus.error (some sample_object) s)
handle_pod_event-sent_example =
    handle_pod_event-sent memory cluster (sample_object ∷ []) failed_pod unseen

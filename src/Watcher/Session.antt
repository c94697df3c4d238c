-- ===== src/Watcher/Session.antt =====
-- internal/k8s/watcher.go: `watchLoop`, a list of the pods and then the events of a watch, and what is told of a
-- failed pod.
use youtube_stream_tracker.Store.Queries.{get_by_id}
use youtube_stream_tracker.Store.Objects.{Object}
use youtube_stream_tracker.Model.{Monitor}
use youtube_stream_tracker.Reconcile.{Cluster}
use youtube_stream_tracker.Store.Api.{Server}
use youtube_stream_tracker.Prelude.Int.{negsuc, ℤ}
use youtube_stream_tracker.Watcher.{Watched, PodEvent, PodPhase, end_monitor, handle_pod_event}
use youtube_stream_tracker.Prelude.{
  inr, inl, Option-cases, length, some, or_else, none, str_eq, get_or, ℕ, Option, String, List, ◌+◌,
  if◌then◌else◌, ◌∷◌, ◌≤◌, arith, [],
}

-- How a container has ended.
pub record Terminated : Type 0 where
  pub exit_code : ℤ
  pub reason : String
  pub message : String

abbrev pub first_terminated : List (Option Terminated) → Option Terminated
first_terminated [] = none
first_terminated (none ∷ xs) = first_terminated xs
first_terminated (some t ∷ xs) = some t

-- From the containers' statuses, and else from those of the init containers.
unfoldable pub extract_pod_failure_info :
    (statuses init_statuses : List (Option Terminated)) → Terminated
extract_pod_failure_info statuses init_statuses =
    get_or (or_else (first_terminated statuses) (first_terminated init_statuses)) (record {
      exit_code = negsuc 0;
      reason = "Unknown";
      message = "no terminated container found";
    })

pub record FailureData : Type 0 where
  pub reason : String
  pub exit_code : ℤ
  pub message : String
  pub pod_name : String
  pub termination_reason : Option String

unfoldable pub failure_data : (pod_name : String) → Terminated → FailureData
failure_data pod_name t = record {
  reason = "pod_failure";
  exit_code = t.exit_code;
  message = t.message;
  pod_name = pod_name;
  termination_reason = if str_eq t.reason "" then none else some t.reason;
}

-- An event's object may be another than a pod. The end of the events is the end of the channel or of the
-- context.
pub data WatchEvent : Type 0 where
  modified : Option PodEvent → WatchEvent
  added_deleted_or_other : WatchEvent

abbrev pub is_failure : PodPhase → ℕ
is_failure PodPhase.failed = 1
is_failure _ = 0

abbrev pub failures_of : WatchEvent → ℕ
failures_of (modified (some pod)) = is_failure pod.phase
failures_of (modified none) = 0
failures_of added_deleted_or_other = 0

abbrev pub failures_watched : List (List Object × WatchEvent) → ℕ
failures_watched [] = 0
failures_watched ((cache, event) ∷ events) = failures_of event + failures_watched events

abbrev pub failures_listed : List (List Object × PodEvent) → ℕ
failures_listed [] = 0
failures_listed ((cache, pod) ∷ pods) = is_failure pod.phase + failures_listed pods

module _ (api : Server) (cluster : Cluster api) where
  -- Each pod with the cache at its time.
  unfoldable pub handle_listed : List (List Object × PodEvent) → Watched api → Watched api
  handle_listed [] w = w
  handle_listed ((cache, pod) ∷ pods) w =
      handle_listed pods (handle_pod_event api cluster cache pod w)

  unfoldable pub handle_event : (cache : List Object) → WatchEvent → Watched api → Watched api
  handle_event cache (modified (some pod)) w = handle_pod_event api cluster cache pod w
  handle_event cache (modified none) w = w
  handle_event cache added_deleted_or_other w = w

  unfoldable pub watch_events : List (List Object × WatchEvent) → Watched api → Watched api
  watch_events [] w = w
  watch_events ((cache, event) ∷ events) w = watch_events events (handle_event cache event w)

  -- Neither the list nor the watch is made where the other call before it fails.
  unfoldable pub watch_loop :
      (listed : Option (List (List Object × PodEvent)))
      → (events : Option (List (List Object × WatchEvent))) → Watched api
      → Watched api
  watch_loop none events w = w
  watch_loop (some pods) none w = handle_listed pods w
  watch_loop (some pods) (some events) w = watch_events events (handle_listed pods w)

  end_monitor-bound :
      (id : String) (phase : PodPhase) (m : Monitor) (w : Watched api)
      → length (end_monitor api cluster id phase m w).sent ≤ length w.sent + is_failure phase
  unfolding end_monitor
  end_monitor-bound id PodPhase.unfinished m w = omega arith
  end_monitor-bound id PodPhase.succeeded m w = ground arith
  end_monitor-bound id PodPhase.failed m w = ground arith

  handle_pod_event-bound :
      (cache : List Object) (pod : PodEvent) (w : Watched api)
      → length (handle_pod_event api cluster cache pod w).sent
        ≤ length w.sent + is_failure pod.phase
  unfolding handle_pod_event
  handle_pod_event-bound cache pod w = elim (Option-cases (get_by_id pod.monitor_id cache)) [
    | inl e ↦ rw (e, handle_pod_event) (ground arith)
    | inr (m, e) ↦
        rw (e, handle_pod_event) (ground (arith, end_monitor-bound pod.monitor_id pod.phase m w))
  ]

  pub handle_listed-bound :
      (pods : List (List Object × PodEvent)) (w : Watched api)
      → length (handle_listed pods w).sent ≤ length w.sent + failures_listed pods
  unfolding handle_listed
  handle_listed-bound [] w = omega arith
  handle_listed-bound ((cache, pod) ∷ pods) w = omega (
    arith,
    handle_pod_event-bound cache pod w,
    handle_listed-bound pods (handle_pod_event api cluster cache pod w),
  )

  handle_event-bound :
      (cache : List Object) (event : WatchEvent) (w : Watched api)
      → length (handle_event cache event w).sent ≤ length w.sent + failures_of event
  unfolding handle_event
  handle_event-bound cache (modified (some pod)) w = handle_pod_event-bound cache pod w
  handle_event-bound cache (modified none) w = omega arith
  handle_event-bound cache added_deleted_or_other w = omega arith

  watch_events-bound :
      (events : List (List Object × WatchEvent)) (w : Watched api)
      → length (watch_events events w).sent ≤ length w.sent + failures_watched events
  unfolding watch_events
  watch_events-bound [] w = omega arith
  watch_events-bound ((cache, event) ∷ events) w = omega (
    arith,
    handle_event-bound cache event w,
    watch_events-bound events (handle_event cache event w),
  )

  -- A session of the watch, from its list of the pods to its end, sends at most one webhook for each failed pod
  -- that it is shown, whatever the caches hold and the server answers.
  pub watch_loop-bound :
      (pods : List (List Object × PodEvent)) (events : List (List Object × WatchEvent))
      (w : Watched api)
      → length (watch_loop (some pods) (some events) w).sent
        ≤ length w.sent + failures_listed pods + failures_watched events
  unfolding watch_loop
  watch_loop-bound pods events w =
      omega (arith, handle_listed-bound pods w, watch_events-bound events (handle_listed pods w))

-- ===== src/Reconcile/Zombies.antt =====
-- internal/k8s/reconcile.go: which of a reconciliation's branches are reached.
use youtube_stream_tracker.Store.Objects.{to_monitor, Object}
use youtube_stream_tracker.Store.Api.{Server}
use youtube_stream_tracker.Store.Queries.{
  in_phase_index, by_phase, active_objects, get_active_monitors,
}
use youtube_stream_tracker.Model.{status_eq, MonitorStatus, Monitor, is_active}
use youtube_stream_tracker.Reconcile.{
  has_pod, count_error, ReconcileResult, Round, Pod, is_finished, Cluster, check_pods,
  report_missing, check_pod, find_monitor, reconcile_startup, find_missing, delete_pod,
}
use youtube_stream_tracker.Prelude.{
  All-append, map-append, str_eq, inr, Bool-cases, inl, Bool, Option-cases, map, some, false, All,
  true, List, String, refl, arith, ◌≡◌, ◌∙◌, [], ◌∷◌,
}

abbrev pub IsActiveMonitor : Monitor → Type 0
IsActiveMonitor m = is_active m.status ≡ true

is_active-is_finished : (s : MonitorStatus) → is_active s ≡ true → is_finished s ≡ false
unfolding is_active
is_active-is_finished MonitorStatus.initializing h = refl
is_active-is_finished MonitorStatus.waiting h = refl
is_active-is_finished MonitorStatus.monitoring h = refl
is_active-is_finished MonitorStatus.scheduled h = refl
is_active-is_finished MonitorStatus.completed h = absurd (ground arith)
is_active-is_finished MonitorStatus.stopped h = absurd (ground arith)
is_active-is_finished MonitorStatus.error h = absurd (ground arith)
is_active-is_finished (MonitorStatus.other w) h = refl

count_error-zombie_pods :
    (api : Server) (cluster : Cluster api) (b : Bool) (r : ReconcileResult)
    → (count_error api cluster b r).zombie_pods ≡ r.zombie_pods
count_error-zombie_pods api cluster true r = refl
count_error-zombie_pods api cluster false r = refl

status_eq-is_active :
    (p s : MonitorStatus) → status_eq p s ≡ true → is_active s ≡ true → is_active p ≡ true
unfolding is_active
status_eq-is_active p MonitorStatus.initializing e h = ground arith
status_eq-is_active p MonitorStatus.waiting e h = ground arith
status_eq-is_active p MonitorStatus.monitoring e h = ground arith
status_eq-is_active p MonitorStatus.scheduled e h = absurd (ground arith)
status_eq-is_active p MonitorStatus.completed e h = absurd (ground arith)
status_eq-is_active p MonitorStatus.stopped e h = absurd (ground arith)
status_eq-is_active p MonitorStatus.error e h = absurd (ground arith)
status_eq-is_active p (MonitorStatus.other w) e h = absurd (ground arith)

indexed-IsActiveMonitor :
    (s : MonitorStatus) (o : Object)
    → is_active s ≡ true
    → in_phase_index s o ≡ true
    → IsActiveMonitor (to_monitor o)
unfolding in_phase_index to_monitor
indexed-IsActiveMonitor s o h y = elim (Option-cases o.status.phase) [
  | inl e ↦ absurd (grind arith)
  | inr (p, e) ↦ rw e (status_eq-is_active p s (grind arith) h)
]

by_phase-All :
    (s : MonitorStatus) (cache : List Object)
    → is_active s ≡ true
    → All IsActiveMonitor (map to_monitor (by_phase s cache))
unfolding by_phase
by_phase-All s [] h = tt
by_phase-All s (o ∷ os) h = elim (Bool-cases (in_phase_index s o)) [
  | inl y ↦ rw y (indexed-IsActiveMonitor s o h y, by_phase-All s os h)
  | inr n ↦ rw n (by_phase-All s os h)
]

get_active_monitors-All :
    (cache : List Object) → All IsActiveMonitor (map to_monitor (active_objects cache))
unfolding active_objects is_active
get_active_monitors-All cache = rw map-append (
    All-append IsActiveMonitor _ _ (by_phase-All MonitorStatus.initializing cache refl) (
      rw map-append (
        All-append IsActiveMonitor _ _ (by_phase-All MonitorStatus.waiting cache refl)
          (by_phase-All MonitorStatus.monitoring cache refl))))

find_monitor-All :
    (id : String) (ms : List Monitor) (m : Monitor)
    → All IsActiveMonitor ms
    → find_monitor id ms ≡ some m
    → IsActiveMonitor m
unfolding find_monitor
find_monitor-All id [] m a e = absurd (ground arith)
find_monitor-All id (n ∷ ms) m (p, a) e = elim (Option-cases (find_monitor id ms)) [
  | inl q ↦ elim (Bool-cases (str_eq n.id id)) [
    | inl y ↦ grind arith
    | inr y ↦ absurd (grind arith)
  ]
  | inr (k, q) ↦ find_monitor-All id ms m a (grind arith)
]

module _ (api : Server) (cluster : Cluster api) where
  check_pod-zombie_pods :
      (ms : List Monitor) (p : Pod) (w : Round api)
      → All IsActiveMonitor ms
      → ((check_pod api cluster ms p w).result.zombie_pods ≡ w.result.zombie_pods)
  unfolding check_pod delete_pod
  check_pod-zombie_pods ms p w a = elim (Option-cases (find_monitor p.monitor_id ms)) [
    | inl q ↦ grind (arith, count_error-zombie_pods)
    | inr (m, q) ↦ grind (
      arith,
      count_error-zombie_pods,
      is_active-is_finished m.status (find_monitor-All p.monitor_id ms m a q),
    )
  ]

  check_pods-zombie_pods :
      (ms : List Monitor) (ps : List Pod) (w : Round api)
      → All IsActiveMonitor ms
      → ((check_pods api cluster ms ps w).result.zombie_pods ≡ w.result.zombie_pods)
  unfolding check_pods
  check_pods-zombie_pods ms [] w a = refl
  check_pods-zombie_pods ms (p ∷ ps) w a =
      check_pods-zombie_pods ms ps (check_pod api cluster ms p w) a ∙ check_pod-zombie_pods ms p w a

  report_missing-zombie_pods :
      (pods : List Pod) (m : Monitor) (w : Round api)
      → ((elim (has_pod m.id pods) as (λ x. Round api) [
        | true ↦ w
        | false ↦ report_missing api cluster m w
      ]).result.zombie_pods
          ≡ w.result.zombie_pods)
  unfolding report_missing
  report_missing-zombie_pods pods m w = ground arith

  find_missing-zombie_pods :
      (pods : List Pod) (ms : List Monitor) (w : Round api)
      → ((find_missing api cluster pods ms w).result.zombie_pods ≡ w.result.zombie_pods)
  unfolding find_missing report_missing
  find_missing-zombie_pods pods [] w = refl
  find_missing-zombie_pods pods (m ∷ ms) w =
      find_missing-zombie_pods pods ms _ ∙ report_missing-zombie_pods pods m w

  -- The monitors that `GetActiveMonitors` returns are active, and so a reconciliation never counts a
  -- zombie pod, whatever the cache, the pods and the server do: the sort is assumed to add no monitor.
  pub reconcile_startup-zombie_pods :
      (oldest_first : List Monitor → List Monitor) (cache : List Object) (s : api.S)
      (h : (ms : List Monitor) → All IsActiveMonitor ms → All IsActiveMonitor (oldest_first ms))
      → ((reconcile_startup api cluster
            (get_active_monitors oldest_first cache)
            s).result.zombie_pods
          ≡ 0)
  unfolding reconcile_startup get_active_monitors
  reconcile_startup-zombie_pods oldest_first cache s h =
      let ms : List Monitor = get_active_monitors oldest_first cache in
      let a : All IsActiveMonitor ms = h _ (get_active_monitors-All cache) in
      elim (Option-cases (cluster.list_worker_pods s)) [
        | inl n ↦ rw (n, reconcile_startup) refl
        | inr (pods, n) ↦ elim (Bool-cases (cluster.is_timed_out s)) [
          | inl y ↦ rw (n, y, reconcile_startup) refl
          | inr y ↦
              rw (n, y, reconcile_startup)
                (check_pods-zombie_pods ms pods _ a
                  ∙ find_missing-zombie_pods pods (cluster.in_map_order ms) _)
        ]
      ]

-- ===== src/Watcher.antt =====
-- internal/k8s/watcher.go: `handlePodEvent`, for pods that have ended.
pub mod Session
pub mod Running
pub mod Earned
use youtube_stream_tracker.Prelude.{
  ap, Bool, Option-cases, inr, inl, Bool-cases, arith, refl, none, some,
}
use youtube_stream_tracker.Store.Writes.Conditions.{update_status_with_condition-Swapped, Swapped}
use youtube_stream_tracker.Store.Writes.{update_status_with_condition}
use youtube_stream_tracker.Store.Queries.{get_by_id}
use youtube_stream_tracker.Store.Objects.{Object}
use youtube_stream_tracker.Model.{is_active, MonitorStatus, Monitor}
use youtube_stream_tracker.Reconcile.{Cluster}
use youtube_stream_tracker.Store.Api.{Result-cases, Result, done, fails, Server}
use youtube_stream_tracker.Prelude.{
  false, true, some, str_eq, List, String, ◌≡◌, ◌⊎◌, ◌∷◌, if◌then◌else◌,
}

pub data PodPhase : Type 0 where
  failed succeeded unfinished : PodPhase

-- The server's state, and the monitors for which a failure webhook was sent, latest first.
pub record Watched (api : Server) : Type 0 where
  pub sent : List Monitor
  pub server : api.S

-- The pod's phase and the label that names its monitor, "" where it has none.
pub record PodEvent : Type 0 where
  pub phase : PodPhase
  pub monitor_id : String

module _ (api : Server) (cluster : Cluster api) where
  -- Only the writer that changes the status deletes the pod, after the webhook where the pod failed.
  unfoldable pub end_monitor : String → PodPhase → Monitor → Watched api → Watched api
  end_monitor id PodPhase.unfinished m w = w
  end_monitor id PodPhase.succeeded m w =
      let (u, s) = update_status_with_condition api id m.status MonitorStatus.completed w.server in
      elim u [
        | fails x ↦ record { sent = w.sent; server = s }
        | done false ↦ record { sent = w.sent; server = s }
        | done true ↦ record { sent = w.sent; server = (cluster.delete_worker_pod id s).1 }
      ]
  end_monitor id PodPhase.failed m w =
      let (u, s) = update_status_with_condition api id m.status MonitorStatus.error w.server in
      elim u [
        | fails x ↦ record { sent = w.sent; server = s }
        | done false ↦ record { sent = w.sent; server = s }
        | done true ↦ record { sent = m ∷ w.sent; server = (cluster.delete_worker_pod id s).1 }
      ]

  unfoldable pub handle_pod_event : (cache : List Object) → PodEvent → Watched api → Watched api
  handle_pod_event cache ev w =
      if str_eq ev.monitor_id "" then w else elim (get_by_id ev.monitor_id cache) [
        | none ↦ w
        | some m ↦ if is_active m.status then end_monitor ev.monitor_id ev.phase m w else w
      ]

  end_monitor-sent :
      (id : String) (phase : PodPhase) (m : Monitor) (w : Watched api)
      → ((end_monitor id phase m w).sent ≡ w.sent)
        ⊎ ((s : api.S) × ((end_monitor id phase m w).sent ≡ m ∷ w.sent)
            × Swapped api id m.status MonitorStatus.error w.server s)
  unfolding end_monitor
  end_monitor-sent id PodPhase.unfinished m w = inl refl
  end_monitor-sent id PodPhase.succeeded m w = inl (ground arith)
  end_monitor-sent id PodPhase.failed m w =
      let r : Result Bool × api.S =
        update_status_with_condition api id m.status MonitorStatus.error w.server in
      elim (Result-cases r.0) [
        | inr (x, e) ↦ inl (grind arith)
        | inl (false, e) ↦ inl (grind arith)
        | inl (true, e) ↦ inr (
          r.1,
          grind arith,
          update_status_with_condition-Swapped api id m.status MonitorStatus.error w.server r.1
              (ap (λ q. (q, r.1)) e),
        )
      ]

  -- A failure webhook is sent only for a monitor that was active in the cache, and only by the
  -- writer whose own compare-and-set turned the status that the cache showed into an error: one
  -- event sends at most one, for the monitor that the pod names.
  pub handle_pod_event-sent :
      (cache : List Object) (ev : PodEvent) (w : Watched api)
      → ((handle_pod_event cache ev w).sent ≡ w.sent)
        ⊎ ((m : Monitor) × (s : api.S) × ((handle_pod_event cache ev w).sent ≡ m ∷ w.sent)
            × (get_by_id ev.monitor_id cache ≡ some m)
            × (is_active m.status ≡ true)
            × Swapped api ev.monitor_id m.status MonitorStatus.error w.server s)
  unfolding handle_pod_event
  handle_pod_event-sent cache ev w = elim (Bool-cases (str_eq ev.monitor_id "")) [
    | inl y ↦ inl (grind arith)
    | inr n ↦ elim (Option-cases (get_by_id ev.monitor_id cache)) [
      | inl e ↦ inl (grind arith)
      | inr (m, e) ↦ elim (Bool-cases (is_active m.status)) [
        | inr i ↦ inl (grind arith)
        | inl i ↦ elim (end_monitor-sent ev.monitor_id ev.phase m w) [
          | inl q ↦ inl (grind arith)
          | inr (s, q, c) ↦ inr (m, s, grind arith, e, i, c)
        ]
      ]
    ]
  ]

-- ===== src/Reconcile.antt =====
-- internal/k8s/reconcile.go: `ReconcileStartup`, which compares the store with the worker pods. The
-- cluster and the clock are parameters, as is the order in which Go walks through a map.
pub mod Zombies
pub mod Notices
pub mod Periodic
use youtube_stream_tracker.Store.Writes.{update_status_with_condition}
use youtube_stream_tracker.Model.{Monitor, MonitorStatus}
use youtube_stream_tracker.Store.Api.{done, fails, Server}
use youtube_stream_tracker.Prelude.{
  some, true, suc, not, none, str_eq, Option, List, Bool, false, ℕ, String, [], if◌then◌else◌, ◌&&◌,
  ◌||◌, ◌∷◌,
}

pub record Pod : Type 0 where
  pub name : String
  -- The label that names its monitor, "" where it has none.
  pub monitor_id : String

-- The errors are counted where the source keeps their text.
pub record ReconcileResult : Type 0 where
  pub missing_pods : ℕ
  pub zombie_pods : ℕ
  pub orphaned_pods : ℕ
  pub errors : ℕ
  pub timed_out : Bool

abbrev pub empty_reconcile_result : ReconcileResult
empty_reconcile_result = record {
  missing_pods = 0;
  zombie_pods = 0;
  orphaned_pods = 0;
  errors = 0;
  timed_out = false;
}

-- The monitors for which a monitor.error webhook is sent, latest first, beside the server's state.
pub record Round (api : Server) : Type 0 where
  pub result : ReconcileResult
  pub sent : List Monitor
  pub server : api.S

pub record Cluster (api : Server) : Type 1 where
  pub list_worker_pods : api.S → Option (List Pod)
  pub delete_worker_pod : String → api.S → Bool × api.S
  pub is_timed_out : api.S → Bool
  pub in_map_order : List Monitor → List Monitor

-- `storeMonitors[id]`: of monitors with the same id the map keeps the last.
unfoldable pub find_monitor : String → List Monitor → Option Monitor
find_monitor id [] = none
find_monitor id (m ∷ ms) = elim (find_monitor id ms) [
  | some n ↦ some n
  | none ↦ if str_eq m.id id then some m else none
]

-- `podMonitors[id]`.
unfoldable pub has_pod : String → List Pod → Bool
has_pod id [] = false
has_pod id (p ∷ ps) = (not (str_eq p.monitor_id "") && str_eq p.monitor_id id) || has_pod id ps

abbrev pub is_finished : MonitorStatus → Bool
is_finished MonitorStatus.stopped = true
is_finished MonitorStatus.error = true
is_finished MonitorStatus.completed = true
is_finished _ = false

module _ (api : Server) (cluster : Cluster api) where
  abbrev count_error : Bool → ReconcileResult → ReconcileResult
  count_error true r = r
  count_error false r = record r { errors = suc r.errors }

  -- A monitor without a pod: its status becomes an error, unless another has changed it meanwhile.
  unfoldable pub report_missing : Monitor → Round api → Round api
  report_missing m w =
      let r : ReconcileResult = record w.result { missing_pods = suc w.result.missing_pods } in
      let (u, s) = update_status_with_condition api m.id m.status MonitorStatus.error w.server in
      elim u [
        | fails x ↦ record { result = count_error false r; sent = w.sent; server = s }
        | done false ↦ record { result = r; sent = w.sent; server = s }
        | done true ↦ record { result = r; sent = m ∷ w.sent; server = s }
      ]

  unfoldable pub find_missing : List Pod → List Monitor → Round api → Round api
  find_missing pods [] w = w
  find_missing pods (m ∷ ms) w =
      find_missing pods ms (elim (has_pod m.id pods) [ true ↦ w | false ↦ report_missing m w ])

  unfoldable pub delete_pod : String → ReconcileResult → Round api → Round api
  delete_pod id r w =
      let (ok, s) = cluster.delete_worker_pod id w.server in
      record { result = count_error ok r; sent = w.sent; server = s }

  -- One pod: no monitor in the map, or one that has ended.
  unfoldable pub check_pod : List Monitor → Pod → Round api → Round api
  check_pod monitors p w =
      if str_eq p.monitor_id "" then w else elim (find_monitor p.monitor_id monitors) [
        | none ↦
            delete_pod p.monitor_id (record w.result { orphaned_pods = suc w.result.orphaned_pods })
              w
        | some m ↦
            if is_finished m.status
            then delete_pod p.monitor_id
                (record w.result { zombie_pods = suc w.result.zombie_pods }) w
            else w
      ]

  unfoldable pub check_pods : List Monitor → List Pod → Round api → Round api
  check_pods monitors [] w = w
  check_pods monitors (p ∷ ps) w = check_pods monitors ps (check_pod monitors p w)

  -- `ReconcileStartup`. `monitors` is what `GetActiveMonitors` returns.
  unfoldable pub reconcile_startup : (monitors : List Monitor) → api.S → Round api
  reconcile_startup monitors s =
      let w : Round api = record { result = empty_reconcile_result; sent = []; server = s } in
      elim (cluster.list_worker_pods s) [
        | none ↦ record w { result = count_error false w.result }
        | some pods ↦
            if cluster.is_timed_out s
            then record w { result = record w.result { timed_out = true } }
            else check_pods monitors pods (find_missing pods (cluster.in_map_order monitors) w)
      ]

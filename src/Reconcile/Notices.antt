-- ===== src/Reconcile/Notices.antt =====
-- internal/k8s/reconcile.go: the monitors of which `ReconcileStartup` tells, and the webhooks of
-- `sendErrorWebhook`.
use youtube_stream_tracker.Store.Writes.{update_status_with_condition}
use youtube_stream_tracker.Store.Writes.Conditions.{update_status_with_condition-Swapped, Swapped}
use youtube_stream_tracker.Model.{Monitor, MonitorStatus}
use youtube_stream_tracker.Store.Api.{Result-cases, Result, Server}
use youtube_stream_tracker.Prelude.{
  true, sym, ap, Bool-cases, subst, arith, ◌∙◌, refl, ◌⊎◌, inl, inr, ◌++◌, All, str_eq, not, List,
  false, Option, ℕ, Bool, String, if◌then◌else◌, [], ◌≡◌, ◌∷◌, ◌||◌, ◌&&◌, some,
}
use youtube_stream_tracker.Reconcile.{
  delete_pod, reconcile_startup, check_pods, check_pod, find_missing, has_pod, Cluster,
  report_missing, Round, Pod,
}

-- The `data` of the event monitor.error.
pub record ErrorData : Type 0 where
  pub reason : String
  pub reconciliation_action : String
  pub previous_status : MonitorStatus
  pub pod_exists : Bool
  pub error_details : String

pub record ErrorPayload : Type 0 where
  pub monitor_id : String
  pub stream_url : String
  pub timestamp : ℕ
  pub metadata : Option String
  pub error_data : ErrorData

unfoldable pub error_payload : (now : ℕ) → Monitor → (reason message : String) → ErrorPayload
error_payload now m reason message = record {
  monitor_id = m.id;
  stream_url = m.stream_url;
  timestamp = now;
  metadata = m.metadata;
  error_data = record {
    reason = reason;
    reconciliation_action = "mark_as_error_missing_pod";
    previous_status = m.status;
    pod_exists = false;
    error_details = message;
  };
}

-- The webhook URLs to which an error is sent, in the order in which the goroutines are started.
unfoldable pub error_targets : (has_sender : Bool) → (operator_url : String) → Monitor → List String
error_targets has_sender operator_url m =
    (if has_sender && not (str_eq operator_url "") then operator_url ∷ [] else [])
    ++ (if not has_sender || str_eq m.callback_url "" then [] else m.callback_url ∷ [])

module _ (api : Server) (cluster : Cluster api) (pods : List Pod) where
  -- The monitor had no pod, and its own compare-and-set turned its status into an error.
  abbrev pub IsMissing : Monitor → Type 0
  IsMissing m =
      (s : api.S) × (s' : api.S) × Swapped api m.id m.status MonitorStatus.error s s'
      × (has_pod m.id pods ≡ false)

  report_missing-sent :
      (m : Monitor) (w : Round api)
      → ((report_missing api cluster m w).sent ≡ w.sent)
        ⊎ ((s : api.S) × ((report_missing api cluster m w).sent ≡ m ∷ w.sent)
            × Swapped api m.id m.status MonitorStatus.error w.server s)
  unfolding report_missing
  report_missing-sent m w =
      let r : Result Bool × api.S =
        update_status_with_condition api m.id m.status MonitorStatus.error w.server in
      elim (Result-cases r.0) [
        | inr (x, e) ↦ inl (grind arith)
        | inl (false, e) ↦ inl (grind arith)
        | inl (true, e) ↦ inr (
          r.1,
          grind arith,
          update_status_with_condition-Swapped api m.id m.status MonitorStatus.error w.server r.1
              (ap (λ q. (q, r.1)) e),
        )
      ]

  IsMissing-report :
      (m : Monitor) (w : Round api)
      → has_pod m.id pods ≡ false
      → All IsMissing w.sent
      → All IsMissing (report_missing api cluster m w).sent
  IsMissing-report m w absent all = elim (report_missing-sent m w) [
    | inl e ↦ subst (All IsMissing) (sym e) all
    | inr (s, e, swapped) ↦ subst (All IsMissing) (sym e) ((w.server, s, swapped, absent), all)
  ]

  IsMissing-monitor :
      (b : Bool) (m : Monitor) (w : Round api)
      → has_pod m.id pods ≡ b
      → All IsMissing w.sent
      → All IsMissing
          (elim b as (λ x. Round api) [ true ↦ w | false ↦ report_missing api cluster m w ]).sent
  IsMissing-monitor true m w h all = all
  IsMissing-monitor false m w h all = IsMissing-report m w h all

  find_missing-IsMissing :
      (ms : List Monitor) (w : Round api)
      → All IsMissing w.sent
      → All IsMissing (find_missing api cluster pods ms w).sent
  unfolding find_missing
  find_missing-IsMissing [] w all = all
  find_missing-IsMissing (m ∷ ms) w all =
      find_missing-IsMissing ms _ (IsMissing-monitor (has_pod m.id pods) m w refl all)

module _ (api : Server) (cluster : Cluster api) where
  check_pod-sent :
      (ms : List Monitor) (p : Pod) (w : Round api) → (check_pod api cluster ms p w).sent ≡ w.sent
  unfolding check_pod delete_pod
  check_pod-sent ms p w = ground arith

  check_pods-sent :
      (ms : List Monitor) (ps : List Pod) (w : Round api)
      → (check_pods api cluster ms ps w).sent ≡ w.sent
  unfolding check_pods
  check_pods-sent ms [] w = refl
  check_pods-sent ms (p ∷ ps) w = check_pods-sent ms ps _ ∙ check_pod-sent ms p w

  -- A reconciliation that lists the worker pods tells of an error only for monitors that have no pod among
  -- them, and only where its own compare-and-set turned the status that the monitor had in the store's list
  -- into an error.
  pub reconcile_startup-IsMissing :
      (monitors : List Monitor) (s : api.S) (pods : List Pod)
      → cluster.list_worker_pods s ≡ some pods
      → All (IsMissing api cluster pods) (reconcile_startup api cluster monitors s).sent
  unfolding reconcile_startup
  reconcile_startup-IsMissing monitors s pods h = elim (Bool-cases (cluster.is_timed_out s)) [
    | inl y ↦ rw (h, y, reconcile_startup) tt
    | inr y ↦
        rw (h, y, reconcile_startup, check_pods-sent monitors pods _)
          (find_missing-IsMissing api cluster pods (cluster.in_map_order monitors) _ tt)
  ]

-- ===== src/Handlers/Guards.antt =====
-- internal/api/handlers.go: what the handlers' checks guarantee of the writes behind them.
use youtube_stream_tracker.Store.Api.{StoreError}
use youtube_stream_tracker.Store.Queries.{by_hash}
use youtube_stream_tracker.Store.Writes.{create}
use youtube_stream_tracker.Store.Objects.{stream_is_empty}
use youtube_stream_tracker.Store.Queries.{by_hash, count_active_monitors, get_by_id}
use youtube_stream_tracker.Prelude.Int.{leb_ℤ, ◌<ℤ◌, pos}
use youtube_stream_tracker.Model.{default_monitor_config, validate, Monitor}
use youtube_stream_tracker.Handlers.{
  apply_config_overrides, validation_error, monitor_created, MonitorConfigRequest,
  UpdateStatusRequest, CreateMonitorRequest, Handler,
}
use youtube_stream_tracker.Store.Api.{Result-cases, Result, done, Server}
use youtube_stream_tracker.Handlers.Internal.{
  health_request_is_invalid, is_valid_stream_status, write_reported_status, is_valid_monitor_status,
  update_monitor_status,
}
use youtube_stream_tracker.Prelude.{
  subst, ap, Bool-cases, Option, ◌∙◌, inr, inl, Option-cases, arith, none, not, is_some, some, true,
  Bool, String, ◌&&◌, ◌≡◌, if◌then◌else◌, ◌||◌,
}
use youtube_stream_tracker.Handlers.Public.{
  create_params, patch_monitor, start_worker, patch_config, store_monitor, create_monitor,
}

-- What has happened where `CreateMonitor` answers that the monitor is created.
pub record Created (api : Server) (h : Handler api) (req : CreateMonitorRequest) (m : Monitor)
    (s : api.S) : Type 0 where
  pub stored : api.S
  pub url_is_valid : h.is_valid_youtube_watch_url req.stream_url ≡ true
  pub callback_is_valid : h.is_valid_callback_url req.callback_url ≡ true
  pub is_below_limit : pos (count_active_monitors (h.cache s)) <ℤ h.max_monitors
  pub config_is_valid : validate (apply_config_overrides default_monitor_config req.config) ≡ none
  pub is_stored :
      create api h.url_hash
        (by_hash (h.url_hash req.stream_url) (h.cache s))
        (create_params api h req)
        s
      ≡ (done m, stored)
  pub has_pod : (h.create_monitor_pod m stored).0 ≡ true

-- Whether the request's words are all allowed.
abbrev pub words_are_valid : UpdateStatusRequest → Bool
words_are_valid req =
    is_valid_monitor_status req.status
    && (stream_is_empty req.stream_status || is_valid_stream_status req.stream_status)
    && not (health_request_is_invalid req.health)

module _ (api : Server) (h : Handler api) where
  open api use {S}

  start_worker-created :
      (m m' : Monitor) (s s' : S)
      → start_worker api h m' s ≡ (monitor_created m, s')
      → (m' ≡ m) × ((h.create_monitor_pod m' s).0 ≡ true)
  unfolding start_worker
  start_worker-created m m' s s' e = elim (Bool-cases h.has_reconciler) [
    | inr n ↦ absurd (grind arith)
    | inl y ↦ elim (Bool-cases ((h.create_monitor_pod m' s).0)) [
      | inr n ↦ absurd (grind arith)
      | inl p ↦ (grind arith, p)
    ]
  ]

  store_monitor-created :
      (req : CreateMonitorRequest) (m : Monitor) (s s' : S)
      → store_monitor api h req s ≡ (monitor_created m, s')
      → (stored : S) × (create api h.url_hash
            (by_hash (h.url_hash req.stream_url) (h.cache s))
            (create_params api h req)
            s
          ≡ (done m, stored))
        × ((h.create_monitor_pod m stored).0 ≡ true)
  unfolding store_monitor
  store_monitor-created req m s s' e =
      let r : Result Monitor × S =
        create api h.url_hash (by_hash (h.url_hash req.stream_url) (h.cache s))
          (create_params api h req) s in
      elim (Result-cases r.0) [
        | inr (StoreError.duplicate_monitor, n) ↦ absurd (grind arith)
        | inr (StoreError.monitor_not_found, n) ↦ absurd (grind arith)
        | inr (StoreError.monitor_not_active, n) ↦ absurd (grind arith)
        | inr (StoreError.store_failure x, n) ↦ absurd (grind arith)
        | inl (m', y) ↦
            let (q, p) = start_worker-created m m' r.1 s' (grind arith) in
            (
              r.1,
              ap (λ z. (z, r.1)) (y ∙ ap (λ z. done z) q),
              subst (λ z. (h.create_monitor_pod z r.1).0 ≡ true) q p,
            )
      ]

  -- `CreateMonitor` answers that a monitor is created only if both URLs are valid, fewer monitors than
  -- the limit are active, the configuration validates, the store has created that monitor, and its pod.
  pub create_monitor-Created :
      (req : CreateMonitorRequest) (m : Monitor) (s s' : S)
      → create_monitor api h (some req) s ≡ (monitor_created m, s')
      → Created api h req m s
  unfolding create_monitor
  create_monitor-Created req m s s' e =
      elim (Bool-cases (h.is_valid_youtube_watch_url req.stream_url)) [
        | inr n ↦ absurd (grind arith)
        | inl u ↦ elim (Bool-cases (h.is_valid_callback_url req.callback_url)) [
          | inr n ↦ absurd (grind arith)
          | inl c ↦
              elim (Bool-cases (leb_ℤ h.max_monitors (pos (count_active_monitors (h.cache s))))) [
                | inl n ↦ absurd (grind arith)
                | inr l ↦
                    elim (Option-cases
                      (validate (apply_config_overrides default_monitor_config req.config))) [
                        | inr (x, n) ↦ absurd (grind arith)
                        | inl v ↦
                            let (t, q, p) = store_monitor-created req m s s' (grind arith) in
                            record {
                              stored = t;
                              url_is_valid = u;
                              callback_is_valid = c;
                              is_below_limit = ground arith;
                              config_is_valid = v;
                              is_stored = q;
                              has_pod = p;
                            }
                      ]
              ]
        ]
      ]

  -- `UpdateMonitorStatus` on a known kind of id: where any word of the request is not allowed, it is
  -- refused and nothing is written; otherwise it goes to the write, and is never refused as invalid.
  pub update_monitor_status-words :
      (id : String) (req : UpdateStatusRequest) (s : S)
      → h.is_valid_monitor_id id ≡ true
      → update_monitor_status api h id (some req) s ≡ (
          if words_are_valid req
          then write_reported_status api h id req s
          else (validation_error, s))
  unfolding update_monitor_status
  update_monitor_status-words id req s v = grind arith

  patch_config-invalid :
      (id : String) (callback : Option String) (o : MonitorConfigRequest) (m : Monitor) (s : S)
      → get_by_id id (h.cache s) ≡ some m
      → is_some (validate (apply_config_overrides m.config (some o))) ≡ true
      → ((patch_config api h id (record { callback_url = callback; config = some o }) s).1) ≡ s
  unfolding patch_config
  patch_config-invalid id callback o m s g v =
      elim (Option-cases (validate (apply_config_overrides m.config (some o)))) [
        | inl e ↦ absurd (grind arith)
        | inr (x, e) ↦ grind arith
      ]

  -- A patch whose configuration does not validate once it is merged with the monitor's own writes
  -- nothing, whatever else it contains.
  pub patch_monitor-invalid :
      (id : String) (callback : Option String) (o : MonitorConfigRequest) (m : Monitor) (s : S)
      → get_by_id id (h.cache s) ≡ some m
      → is_some (validate (apply_config_overrides m.config (some o))) ≡ true
      → ((patch_monitor api h id (some (record { callback_url = callback; config = some o })) s).1)
        ≡ s
  unfolding patch_monitor
  patch_monitor-invalid id callback o m s g v =
      ground (arith, patch_config-invalid id callback o m s g v)

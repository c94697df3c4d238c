-- ===== src/Handlers/Public.antt =====
-- internal/api/handlers.go: the public endpoints, CreateMonitor, GetMonitor, DeleteMonitor and
-- PatchMonitor. A request whose body does not bind is `none`.
use youtube_stream_tracker.Store.Api.{fails, StoreError}
use youtube_stream_tracker.Prelude.Int.{pos, leb_ℤ}
use youtube_stream_tracker.Store.Queries.{count_active_monitors, get_by_id, get_with_stats, by_hash}
use youtube_stream_tracker.Store.Writes.{
  delete, update_phase, create, update_monitor, CreateMonitorParams,
}
use youtube_stream_tracker.Store.Objects.{UpdateMonitorParams}
use youtube_stream_tracker.Model.{validate, MonitorStatus, default_monitor_config, Monitor}
use youtube_stream_tracker.Handlers.{
  invalid_config, monitor_found, monitor_deleted, monitor_created, monitor_updated, invalid_url,
  internal_error, not_found, validation_error, apply_config_overrides, PatchMonitorRequest,
  Response, CreateMonitorRequest, Handler,
}
use youtube_stream_tracker.Store.Api.{done, Server}
use youtube_stream_tracker.Prelude.{
  is_some, none, true, some, false, not, Bool, String, Option, ◌&&◌, if◌then◌else◌,
}

module _ (api : Server) (h : Handler api) where
  open api use {S}

  -- A pod is wanted for the monitor; where that fails its status becomes an error.
  unfoldable pub start_worker : Monitor → S → Response × S
  start_worker m s = elim h.has_reconciler [
    | false ↦ (internal_error, (update_phase api h.retry m.id MonitorStatus.error s).1)
    | true ↦
        let (ok, s') = h.create_monitor_pod m s in
        elim ok [
          | true ↦ (monitor_created m, s')
          | false ↦ (internal_error, (update_phase api h.retry m.id MonitorStatus.error s').1)
        ]
  ]

  unfoldable pub create_params : CreateMonitorRequest → CreateMonitorParams
  create_params req = record {
    id = h.new_monitor_id;
    stream_url = req.stream_url;
    callback_url = req.callback_url;
    config = apply_config_overrides default_monitor_config req.config;
    metadata = req.metadata;
    initial_phase = MonitorStatus.initializing;
  }

  unfoldable pub store_monitor : CreateMonitorRequest → S → Response × S
  store_monitor req s =
      let (r, s') =
        create api h.url_hash (by_hash (h.url_hash req.stream_url) (h.cache s)) (create_params req)
          s in
      elim r [
        | done m ↦ start_worker m s'
        | fails StoreError.duplicate_monitor ↦ (Response.duplicate_monitor, s')
        | fails x ↦ (internal_error, s')
      ]

  unfoldable pub create_monitor : Option CreateMonitorRequest → S → Response × S
  create_monitor none s = (validation_error, s)
  create_monitor (some req) s =
      if not (h.is_valid_youtube_watch_url req.stream_url)
      then (invalid_url, s)
      else if not (h.is_valid_callback_url req.callback_url)
      then (validation_error, s)
      else if leb_ℤ h.max_monitors (pos (count_active_monitors (h.cache s)))
      then (Response.max_monitors, s)
      else elim (validate (apply_config_overrides default_monitor_config req.config)) [
        | some x ↦ (invalid_config x, s)
        | none ↦ store_monitor req s
      ]

  unfoldable pub get_monitor : String → S → Response × S
  get_monitor id s =
      if not (h.is_valid_monitor_id id)
      then (not_found, s)
      else elim (get_with_stats id (h.cache s)) [
        | none ↦ (not_found, s)
        | some m ↦ (monitor_found m, s)
      ]

  -- The pod is deleted as well as it can be: its error is logged.
  unfoldable pub clean_up_pod : String → S → S
  clean_up_pod id s = elim h.has_reconciler [ false ↦ s | true ↦ (h.delete_monitor_pod id s).1 ]

  unfoldable pub delete_monitor : String → S → Response × S
  delete_monitor id s =
      if not (h.is_valid_monitor_id id)
      then (not_found, s)
      else (let (r, s') = delete api id s in
          elim r [
            | done t ↦ (monitor_deleted true, clean_up_pod id s')
            | fails StoreError.monitor_not_found ↦ (not_found, s')
            | fails x ↦ (internal_error, s')
          ])

  unfoldable pub write_patch : String → UpdateMonitorParams → S → Response × S
  write_patch id p s =
      let (r, s') = update_monitor api h.retry id p s in
      elim r [
        | done m ↦ (monitor_updated m, s')
        | fails StoreError.monitor_not_found ↦ (not_found, s')
        | fails StoreError.monitor_not_active ↦ (Response.monitor_not_active, s')
        | fails x ↦ (internal_error, s')
      ]

  abbrev callback_is_invalid : Option String → Bool
  callback_is_invalid none = false
  callback_is_invalid (some url) = not (h.is_valid_callback_url url)

  -- Only a change of the configuration needs the monitor as it is.
  unfoldable pub patch_config : String → PatchMonitorRequest → S → Response × S
  patch_config id req s = elim req.config [
    | none ↦ write_patch id (record { callback_url = req.callback_url; config = none }) s
    | some o ↦ elim (get_by_id id (h.cache s)) [
      | none ↦ (not_found, s)
      | some m ↦ elim (validate (apply_config_overrides m.config (some o))) [
        | some x ↦ (invalid_config x, s)
        | none ↦
            write_patch id
              (record {
                callback_url = req.callback_url;
                config = some (apply_config_overrides m.config (some o));
              })
              s
      ]
    ]
  ]

  unfoldable pub patch_monitor : String → Option PatchMonitorRequest → S → Response × S
  patch_monitor id none s = (if h.is_valid_monitor_id id then validation_error else not_found, s)
  patch_monitor id (some req) s =
      if not (h.is_valid_monitor_id id)
      then (not_found, s)
      else if not (is_some req.callback_url) && not (is_some req.config)
      then (validation_error, s)
      else if callback_is_invalid req.callback_url
      then (validation_error, s)
      else patch_config id req s

-- ===== src/Gateway/Exchange/Reports.antt =====
-- internal/worker/callback.go and internal/api/handlers.go: what a status report that is accepted has changed.
use youtube_stream_tracker.Store.Queries.{get_from_cache}
use youtube_stream_tracker.Store.Writes.Conditions.{StatusWritten, update_phase-StatusWritten}
use youtube_stream_tracker.Gateway.Exchange.{
  answer_reply, response_reply, status_route, report, exchange,
}
use youtube_stream_tracker.Middleware.Keys.{api_key_auth-authorized}
use youtube_stream_tracker.Middleware.{
  invalid_key, key_required, authorized, internal_api_key_auth, Authorization,
}
use youtube_stream_tracker.Store.Writes.{update_stats, update_phase}
use youtube_stream_tracker.Handlers.Internal.{
  merge_stats, is_valid_monitor_status, write_reported_status, update_monitor_status,
  update_reported_stats, is_valid_stream_status, health_request_is_invalid,
}
use youtube_stream_tracker.Store.Objects.{to_stats, set_phase, Object, stream_is_empty}
use youtube_stream_tracker.Callback.{CallbackClient, callback_report_status, call, status_request}
use youtube_stream_tracker.Callback.Delivered.{received}
use youtube_stream_tracker.Gateway.{Keys, Request, find_route, routes}
use youtube_stream_tracker.Gateway.Serving.{
  Services, State, serve, run_route, run_guards, run_guard, run_endpoint, handle_endpoint,
}
use youtube_stream_tracker.Handlers.{Handler, UpdateStatusRequest}
use youtube_stream_tracker.Model.{MonitorStatus}
use youtube_stream_tracker.Store.Api.{Result-cases, Server, StoreError}
use youtube_stream_tracker.Validation.{validate_outbound_url, Network}
use youtube_stream_tracker.Worker.World.{StatusUpdate}
use youtube_stream_tracker.Prelude.{
  is_some, ◌||◌, ◌⊎◌, sym, subst, Option-cases, ◌≢◌, inl, inr, not, Bool-cases, ltb, true, refl,
  ◌≡◌, arith, ◌&&◌, Option, String, some, ℕ,
}

module _ (api : Server) (h : Handler api) (id : String) (req : UpdateStatusRequest)
    (s : api.S) where
  -- The status was written. After it the statistics were left alone, or their write was tried, which may
  -- have failed without a change of the answer.
  pub record IsStored (s' : api.S) : Type 0 where
    pub valid_id : h.is_valid_monitor_id id ≡ true
    pub valid_status : is_valid_monitor_status req.status ≡ true
    pub with_status : api.S
    pub status_written : StatusWritten api id (set_phase req.status) with_status
    pub then_stats :
        (s' ≡ with_status)
        ⊎ ((o : Object) × (get_from_cache id (h.cache with_status) ≡ some o)
            × (s' ≡ (update_stats api h.retry (merge_stats req h.now (to_stats o)) with_status).1))

  update_reported_stats-cases :
      (s1 : api.S)
      → (update_reported_stats api h id req s1 ≡ s1)
        ⊎ ((o : Object) × (get_from_cache id (h.cache s1) ≡ some o)
            × (update_reported_stats api h id req s1
                ≡ (update_stats api h.retry (merge_stats req h.now (to_stats o)) s1).1))
  unfolding update_reported_stats
  update_reported_stats-cases s1 =
      elim (Bool-cases
        (is_some req.health || is_some req.statistics || not (stream_is_empty req.stream_status))) [
          | inr b ↦ inl (rw (update_reported_stats, b) refl)
          | inl b ↦ elim (Option-cases (get_from_cache id (h.cache s1))) [
            | inl e ↦ inl (rw (update_reported_stats, b, e) refl)
            | inr (o, e) ↦ inr (o, e, rw (update_reported_stats, b, e) refl)
          ]
        ]

  write-accepted :
      h.is_valid_monitor_id id ≡ true
      → is_valid_monitor_status req.status ≡ true
      → ltb (response_reply (write_reported_status api h id req s).0).status 400 ≡ true
      → IsStored (write_reported_status api h id req s).1
  unfolding write_reported_status response_reply
  write-accepted i v = elim (Result-cases (update_phase api h.retry id req.status s).0) [
    | inl (t, q) ↦
        rw (q, response_reply, write_reported_status)
          (λ c. record {
            valid_id = i;
            valid_status = v;
            with_status = (update_phase api h.retry id req.status s).1;
            status_written = update_phase-StatusWritten api h.retry id req.status s q;
            then_stats = update_reported_stats-cases (update_phase api h.retry id req.status s).1;
          })
    | inr (StoreError.monitor_not_found, q) ↦
        rw (q, response_reply, write_reported_status) (λ c. absurd grind arith)
    | inr (StoreError.duplicate_monitor, q) ↦
        rw (q, response_reply, write_reported_status) (λ c. absurd grind arith)
    | inr (StoreError.monitor_not_active, q) ↦
        rw (q, response_reply, write_reported_status) (λ c. absurd grind arith)
    | inr (StoreError.store_failure x, q) ↦
        rw (q, response_reply, write_reported_status) (λ c. absurd grind arith)
  ]

  update-accepted :
      ltb (response_reply (update_monitor_status api h id (some req) s).0).status 400 ≡ true
      → IsStored (update_monitor_status api h id (some req) s).1
  unfolding update_monitor_status response_reply
  update-accepted = elim (Bool-cases (h.is_valid_monitor_id id)) [
    | inr i ↦ rw (i, response_reply, update_monitor_status) (λ c. absurd grind arith)
    | inl i ↦ elim (Bool-cases (is_valid_monitor_status req.status)) [
      | inr v ↦ rw (i, v, response_reply, update_monitor_status) (λ c. absurd grind arith)
      | inl v ↦
          elim (Bool-cases (
            not (stream_is_empty req.stream_status)
            && not (is_valid_stream_status req.stream_status))) [
              | inl w ↦
                  rw (i, v, w, response_reply, update_monitor_status) (λ c. absurd grind arith)
              | inr w ↦ elim (Bool-cases (health_request_is_invalid req.health)) [
                | inl x ↦
                    rw (i, v, w, x, response_reply, update_monitor_status) (λ c. absurd grind arith)
                | inr x ↦
                    rw (i, v, w, x, response_reply, update_monitor_status)
                      (λ c. write-accepted i v c)
              ]
            ]
    ]
  ]

module _ (api : Server) (sv : Services api) (keys : Keys) (path_of : String → String)
    (client_ip : String) (time : ℕ) (g : State api sv keys) where
  route-accepted :
      (q : Request) (req : UpdateStatusRequest) (id : String) (a : Authorization)
      → sv.matching.monitor_id status_route.pattern q.path ≡ id
      → q.status_body ≡ some req
      → internal_api_key_auth keys.internal_api_key q.internal_api_key_header ≡ a
      → ltb (answer_reply (run_route api sv keys status_route q g).0).status 400 ≡ true
      → (a ≡ authorized)
        × IsStored api sv.handler id req g.server (run_route api sv keys status_route q g).1.server
  unfolding run_route run_guards run_guard run_endpoint handle_endpoint answer_reply
  route-accepted q req id authorized m b h =
      rw (h, m, b) (λ c. (refl, update-accepted api sv.handler id req g.server c))
  route-accepted q req id key_required m b h = rw h (λ c. absurd grind arith)
  route-accepted q req id invalid_key m b h = rw h (λ c. absurd grind arith)

  serve-status_route :
      (q : Request)
      → find_route sv.matching q routes ≡ some status_route
      → serve api sv keys q g ≡ run_route api sv keys status_route q g
  unfolding serve
  serve-status_route q r = rw r refl

  -- Where gin sends the path of the report to its route and reads the monitor's identifier from it, a report
  -- that the worker sees accepted carried the gateway's own key, which is not empty; the identifier and
  -- the status are valid ones, the server has taken over the monitor's object with that status. After it the statistics
  -- were left alone, or a write of the reported ones merged into the cached ones was tried, whose error the
  -- answer hides.
  pub report_status-IsStored :
      (net : Network) (c : CallbackClient) (id : String) (status : MonitorStatus)
      (update : Option StatusUpdate)
      → find_route sv.matching
          (report api sv keys path_of client_ip time g c id (status_request status update))
          routes
        ≡ some status_route
      → sv.matching.monitor_id status_route.pattern
          (report api sv keys path_of client_ip time g c id (status_request status update)).path
        ≡ id
      → callback_report_status net
          (exchange api sv keys path_of client_ip time g)
          c
          id
          status
          update
        ≡ true
      → (c.internal_api_key ≡ keys.internal_api_key)
        × (keys.internal_api_key ≢ "")
        × IsStored api sv.handler id
            (received (status_request status update))
            g.server
            (serve api sv keys
              (report api sv keys path_of client_ip time g c id (status_request status update))
              g).1.server
  unfolding callback_report_status call exchange
  report_status-IsStored net c id status update r m =
      elim (Option-cases (validate_outbound_url net c.base_url true)) [
        | inr (x, v) ↦ rw (v, callback_report_status, call) (λ a. absurd grind arith)
        | inl v ↦
            let q =
              report api sv keys path_of client_ip time g c id (status_request status update) in
            let auth = internal_api_key_auth keys.internal_api_key c.internal_api_key in
            let served = serve-status_route q r in
            rw (v, callback_report_status, call)
              (λ a.
                let (k, stored) =
                  route-accepted q (received (status_request status update)) id auth m refl refl
                    (subst (λ w. ltb (answer_reply w.0).status 400 ≡ true) served a) in
                let (same, given) =
                  ((api_key_auth-authorized keys.internal_api_key c.internal_api_key "").1).0 k in
                (
                  same,
                  given,
                  subst
                      (λ w.
                        IsStored api sv.handler id (received (status_request status update))
                          g.server w.1.server)
                      (sym served) stored,
                ))
      ]

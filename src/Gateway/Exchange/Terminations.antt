-- ===== src/Gateway/Exchange/Terminations.antt =====
-- internal/worker/callback.go and internal/api/handlers.go: what a termination that is accepted has changed.
use youtube_stream_tracker.Handlers.Public.{clean_up_pod}
use youtube_stream_tracker.Gateway.Exchange.{
  answer_reply, response_reply, terminate_route, termination, exchange,
}
use youtube_stream_tracker.Middleware.Keys.{api_key_auth-authorized}
use youtube_stream_tracker.Middleware.{
  invalid_key, key_required, authorized, internal_api_key_auth, Authorization,
}
use youtube_stream_tracker.Handlers.Internal.{terminate_monitor}
use youtube_stream_tracker.Callback.{CallbackClient, callback_terminate_monitor, call}
use youtube_stream_tracker.Gateway.{Keys, Request, find_route, routes}
use youtube_stream_tracker.Gateway.Serving.{
  Services, State, serve, run_route, run_guards, run_guard, run_endpoint, handle_endpoint,
}
use youtube_stream_tracker.Handlers.{Handler}
use youtube_stream_tracker.Store.Writes.{delete}
use youtube_stream_tracker.Handlers.Public.{clean_up_pod}
use youtube_stream_tracker.Store.Api.{
  answered, err, is_not_found, is_already_exists, is_conflict, failure, Reply, Reply-cases, Server,
}
use youtube_stream_tracker.Validation.{validate_outbound_url, Network}
use youtube_stream_tracker.Prelude.{
  false, ap, ◌⊎◌, sym, subst, Option-cases, ◌≢◌, inl, inr, Bool-cases, ltb, true, refl, ◌≡◌, arith,
  String, some, ℕ,
}

module _ (api : Server) (h : Handler api) (id : String) (s : api.S) where
  -- The monitor was deleted, or was missing. After it the deletion of its pod was tried, where there is a
  -- reconciler.
  pub record IsEnded (s' : api.S) : Type 0 where
    pub valid_id : h.is_valid_monitor_id id ≡ true
    pub deleted : api.S
    pub gone :
        (api.delete_object id s ≡ (answered tt, deleted))
        ⊎ (api.delete_object id s ≡ (err is_not_found, deleted))
    pub then_pod :
        ((h.has_reconciler ≡ true) × (s' ≡ (h.delete_monitor_pod id deleted).1))
        ⊎ ((h.has_reconciler ≡ false) × (s' ≡ deleted))

  clean_up_pod-cases :
      (s1 : api.S)
      → ((h.has_reconciler ≡ true) × (clean_up_pod api h id s1 ≡ (h.delete_monitor_pod id s1).1))
        ⊎ ((h.has_reconciler ≡ false) × (clean_up_pod api h id s1 ≡ s1))
  unfolding clean_up_pod
  clean_up_pod-cases s1 = elim (Bool-cases h.has_reconciler) [
    | inl e ↦ inl (e, rw (clean_up_pod, e) refl)
    | inr e ↦ inr (e, rw (clean_up_pod, e) refl)
  ]

  delete-state : (delete api id s).1 ≡ (api.delete_object id s).1
  unfolding delete
  delete-state = elim (Reply-cases (api.delete_object id s).0) [
    | inl (t, q) ↦ rw (delete, q) refl
    | inr (x, q) ↦ rw (delete, q) refl
  ]

  terminate-accepted :
      ltb (response_reply (terminate_monitor api h id true s).0).status 400 ≡ true
      → IsEnded (terminate_monitor api h id true s).1
  unfolding terminate_monitor response_reply delete
  terminate-accepted = elim (Bool-cases (h.is_valid_monitor_id id)) [
    | inr i ↦ rw (i, response_reply, terminate_monitor) (λ c. absurd grind arith)
    | inl i ↦
        let r : Reply (Unit {0}) × api.S = api.delete_object id s in
        let pod =
          subst
            (λ v.
              ((h.has_reconciler ≡ true)
                × (clean_up_pod api h id v ≡ (h.delete_monitor_pod id r.1).1))
              ⊎ ((h.has_reconciler ≡ false) × (clean_up_pod api h id v ≡ r.1)))
            (sym delete-state) (clean_up_pod-cases r.1) in
        elim (Reply-cases r.0) [
          | inl (t, q) ↦
              rw (i, delete, q, response_reply, terminate_monitor)
                (λ c. record {
                  valid_id = i;
                  deleted = r.1;
                  gone = inl (ap (λ x. (x, r.1)) q);
                  then_pod = pod;
                })
          | inr (is_not_found, q) ↦
              rw (i, delete, q, response_reply, terminate_monitor)
                (λ c. record {
                  valid_id = i;
                  deleted = r.1;
                  gone = inr (ap (λ x. (x, r.1)) q);
                  then_pod = pod;
                })
          | inr (is_already_exists, q) ↦
              rw (i, delete, q, response_reply, terminate_monitor) (λ c. absurd grind arith)
          | inr (is_conflict, q) ↦
              rw (i, delete, q, response_reply, terminate_monitor) (λ c. absurd grind arith)
          | inr (failure, q) ↦
              rw (i, delete, q, response_reply, terminate_monitor) (λ c. absurd grind arith)
        ]
  ]

module _ (api : Server) (sv : Services api) (keys : Keys) (path_of : String → String)
    (client_ip : String) (time : ℕ) (g : State api sv keys) where
  termination-accepted :
      (q : Request) (id : String) (a : Authorization)
      → sv.matching.monitor_id terminate_route.pattern q.path ≡ id
      → q.terminate_binds ≡ true
      → internal_api_key_auth keys.internal_api_key q.internal_api_key_header ≡ a
      → ltb (answer_reply (run_route api sv keys terminate_route q g).0).status 400 ≡ true
      → (a ≡ authorized)
        × IsEnded api sv.handler id g.server (run_route api sv keys terminate_route q g).1.server
  unfolding run_route run_guards run_guard run_endpoint handle_endpoint answer_reply
  termination-accepted q id authorized m b h =
      rw (h, m, b) (λ c. (refl, terminate-accepted api sv.handler id g.server c))
  termination-accepted q id key_required m b h = rw h (λ c. absurd grind arith)
  termination-accepted q id invalid_key m b h = rw h (λ c. absurd grind arith)

  serve-terminate_route :
      (q : Request)
      → find_route sv.matching q routes ≡ some terminate_route
      → serve api sv keys q g ≡ run_route api sv keys terminate_route q g
  unfolding serve
  serve-terminate_route q r = rw r refl

  -- Where gin sends the path of the termination to its route and reads the monitor's identifier from it, a
  -- termination that the worker sees accepted carried the gateway's own key, which is not empty; the
  -- identifier is a valid one, the server has deleted the monitor, or found none. After it the deletion of its pod
  -- was tried, if there is a reconciler, and its error is hidden.
  pub callback_terminate_monitor-IsEnded :
      (net : Network) (c : CallbackClient) (id reason : String)
      → find_route sv.matching (termination api sv keys path_of client_ip time g c id) routes
        ≡ some terminate_route
      → sv.matching.monitor_id terminate_route.pattern
          (termination api sv keys path_of client_ip time g c id).path
        ≡ id
      → callback_terminate_monitor net (exchange api sv keys path_of client_ip time g) c id reason
        ≡ true
      → (c.internal_api_key ≡ keys.internal_api_key)
        × (keys.internal_api_key ≢ "")
        × IsEnded api sv.handler id g.server
            (serve api sv keys (termination api sv keys path_of client_ip time g c id) g).1.server
  unfolding callback_terminate_monitor call exchange
  callback_terminate_monitor-IsEnded net c id reason r m =
      elim (Option-cases (validate_outbound_url net c.base_url true)) [
        | inr (x, v) ↦ rw (v, callback_terminate_monitor, call) (λ a. absurd grind arith)
        | inl v ↦
            let q = termination api sv keys path_of client_ip time g c id in
            let auth = internal_api_key_auth keys.internal_api_key c.internal_api_key in
            let served = serve-terminate_route q r in
            rw (v, callback_terminate_monitor, call)
              (λ a.
                let (k, ended) =
                  termination-accepted q id auth m refl refl
                    (subst (λ w. ltb (answer_reply w.0).status 400 ≡ true) served a) in
                let (same, given) =
                  ((api_key_auth-authorized keys.internal_api_key c.internal_api_key "").1).0 k in
                (
                  same,
                  given,
                  subst (λ w. IsEnded api sv.handler id g.server w.1.server) (sym served) ended,
                ))
      ]

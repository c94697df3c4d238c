-- ===== src/Gateway/Serving.antt =====
-- cmd/gateway/main.go: a request on its way through the middlewares to its endpoint.
use youtube_stream_tracker.Model.{Monitor}
use youtube_stream_tracker.Middleware.RateLimiter.{
  set_visitor, rate_limit, find_visitor, Buckets, Heap,
}
use youtube_stream_tracker.Gateway.{
  needs_internal_api_key, needs_api_key, rate_limit_exceeded, handled, Matching, rate_limited,
  not_routed, routes, not_ready, unless_authorized, healthy, find_route, ready, Request, Route,
  Guard, Endpoint, Answer, Gateway, Keys,
}
use youtube_stream_tracker.Handlers.{Handler}
use youtube_stream_tracker.Store.Api.{Server}
use youtube_stream_tracker.Prelude.{
  Bool, Option, String, List, ℕ, if◌then◌else◌, [], ◌∷◌, none, some,
}
use youtube_stream_tracker.Middleware.{api_key_auth, internal_api_key_auth}
use youtube_stream_tracker.Middleware.Registry.{get}
use youtube_stream_tracker.Handlers.Public.{
  create_monitor, get_monitor, patch_monitor, delete_monitor,
}
use youtube_stream_tracker.Handlers.Internal.{update_monitor_status, terminate_monitor}
use youtube_stream_tracker.Handlers.Listing.{list_monitors}

-- What the gateway is built with: `cache_synced` is whether the informer's cache is found synced within
-- a second.
pub record Services (api : Server) : Type 1 where
  pub handler : Handler api
  pub heap : Heap
  pub buckets : Buckets
  pub format : (limit window : ℕ) → String
  pub newest_first : List Monitor → List Monitor
  pub matching : Matching
  pub cache_synced : api.S → Bool

module _ (api : Server) (sv : Services api) (keys : Keys) where
  abbrev pub State : Type 0
  State = Gateway api sv.heap sv.buckets

  unfoldable pub readyz_handler : api.S → Answer
  readyz_handler s = if sv.cache_synced s then ready else not_ready

  -- The shared limiter of the limit and the window counts the request; `get` finds the limiter that
  -- the route was built with, since the registry keeps it under that limit and window.
  unfoldable pub limit_rate : (limit window : ℕ) → Request → State → Option Answer × State
  limit_rate limit window q g =
      let (key, r) = get sv.heap sv.buckets sv.format limit window g.limiters in
      elim (find_visitor key r.limiters) [
        | none ↦ (none, g)
        | some l ↦
            let (allowed, l') =
              rate_limit sv.heap sv.buckets q.api_key_header q.client_ip q.time l in
            (
              if allowed then none else some rate_limit_exceeded,
              record g { limiters = record r { limiters = set_visitor key l' r.limiters } },
            )
      ]

  unfoldable pub run_guard : Guard → Request → State → Option Answer × State
  run_guard needs_api_key q g =
      (unless_authorized (api_key_auth keys.api_key q.api_key_header q.authorization), g)
  run_guard needs_internal_api_key q g =
      (unless_authorized (internal_api_key_auth keys.internal_api_key q.internal_api_key_header), g)
  run_guard (rate_limited limit window) q g = limit_rate limit window q g

  -- `c.Abort()` and `c.Next()`.
  abbrev pub unless_aborted :
      {A : Type 0} → (Answer → A) → (State → A × State) → Option Answer × State → A × State
  unless_aborted stop next (some a, g) = (stop a, g)
  unless_aborted stop next (none, g) = next g

  -- The first guard that aborts answers.
  unfoldable pub run_guards : List Guard → Request → State → Option Answer × State
  run_guards [] q g = (none, g)
  run_guards (x ∷ xs) q g =
      unless_aborted (λ a. some a) (λ g'. run_guards xs q g') (run_guard x q g)

  unfoldable pub handle_endpoint : Endpoint → String → Request → api.S → Answer × api.S
  handle_endpoint Endpoint.healthz id q s = (healthy, s)
  handle_endpoint Endpoint.readyz id q s = (readyz_handler s, s)
  handle_endpoint Endpoint.create_monitor id q s =
      let (r, s') = create_monitor api sv.handler q.create_body s in (handled r, s')
  handle_endpoint Endpoint.list_monitors id q s =
      let (r, s') = list_monitors api sv.handler sv.newest_first q.query s in (handled r, s')
  handle_endpoint Endpoint.get_monitor id q s =
      let (r, s') = get_monitor api sv.handler id s in (handled r, s')
  handle_endpoint Endpoint.patch_monitor id q s =
      let (r, s') = patch_monitor api sv.handler id q.patch_body s in (handled r, s')
  handle_endpoint Endpoint.delete_monitor id q s =
      let (r, s') = delete_monitor api sv.handler id s in (handled r, s')
  handle_endpoint Endpoint.update_monitor_status id q s =
      let (r, s') = update_monitor_status api sv.handler id q.status_body s in (handled r, s')
  handle_endpoint Endpoint.terminate_monitor id q s =
      let (r, s') = terminate_monitor api sv.handler id q.terminate_binds s in (handled r, s')

  unfoldable pub run_endpoint : Route → Request → State → Answer × State
  run_endpoint r q g =
      let (a, s) =
        handle_endpoint r.endpoint (sv.matching.monitor_id r.pattern q.path) q g.server in
      (a, record g { server = s })

  unfoldable pub run_route : Route → Request → State → Answer × State
  run_route r q g = unless_aborted (λ a. a) (λ g'. run_endpoint r q g') (run_guards r.guards q g)

  unfoldable pub serve : Request → State → Answer × State
  serve q g = elim (find_route sv.matching q routes) [
    | none ↦ (not_routed, g)
    | some r ↦ run_route r q g
  ]

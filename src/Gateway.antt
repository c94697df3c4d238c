-- ===== src/Gateway.antt =====
-- cmd/gateway/main.go: the routes of the gateway, their middlewares, and what a request comes to. The
-- matching of a path is gin's, and a parameter.
pub mod Routing
pub mod Guards
pub mod Serving
pub mod Boot
pub mod Exchange
use youtube_stream_tracker.Handlers.Listing.{ListQuery}
use youtube_stream_tracker.Middleware.Registry.{LimiterRegistry}
use youtube_stream_tracker.Middleware.RateLimiter.{Limited, Buckets, Heap}
use youtube_stream_tracker.Handlers.{
  UpdateStatusRequest, PatchMonitorRequest, CreateMonitorRequest, Response,
}
use youtube_stream_tracker.Middleware.{authorized, Authorization}
use youtube_stream_tracker.Store.Api.{Server}
use youtube_stream_tracker.Prelude.{
  false, true, str_append, Option, map, List, String, ℕ, Bool, [], ◌++◌, ◌∷◌, if◌then◌else◌, ◌&&◌,
  none, some,
}

pub data Method : Type 0 where
  get post put patch delete : Method

-- The functions that a route ends in.
pub data Endpoint : Type 0 where
  healthz readyz create_monitor list_monitors get_monitor patch_monitor delete_monitor : Endpoint
  update_monitor_status terminate_monitor : Endpoint

-- `APIKeyAuth`, `InternalAPIKeyAuth` and `RateLimit`.
pub data Guard : Type 0 where
  needs_api_key needs_internal_api_key : Guard
  rate_limited : (limit window : ℕ) → Guard

pub record Route : Type 0 where
  pub method : Method
  pub pattern : String
  pub guards : List Guard
  pub endpoint : Endpoint

abbrev pub minute : ℕ
minute = 60_000_000_000

-- A route of a group: the group's prefix and guard come first.
abbrev pub grouped : String → Guard → Route → Route
grouped prefix g r = record r { pattern = str_append prefix r.pattern; guards = g ∷ r.guards }

abbrev pub route : Method → String → List Guard → Endpoint → Route
route m p gs e = record { method = m; pattern = p; guards = gs; endpoint = e }

abbrev pub health_routes : List Route
health_routes =
    route Method.get "/healthz" [] Endpoint.healthz
    ∷ route Method.get "/readyz" [] Endpoint.readyz
    ∷ []

abbrev pub v1_routes : List Route
v1_routes = map (grouped "/api/v1" needs_api_key) (
    route Method.post "/monitors" (rate_limited 25 minute ∷ []) Endpoint.create_monitor
    ∷ route Method.get "/monitors" (rate_limited 100 minute ∷ []) Endpoint.list_monitors
    ∷ route Method.get "/monitors/:monitor_id" (rate_limited 100 minute ∷ []) Endpoint.get_monitor
    ∷ route Method.patch "/monitors/:monitor_id" (rate_limited 25 minute ∷ [])
        Endpoint.patch_monitor
    ∷ route Method.delete "/monitors/:monitor_id" [] Endpoint.delete_monitor
    ∷ [])

abbrev pub internal_routes : List Route
internal_routes = map (grouped "/internal/v1" needs_internal_api_key) (
    route Method.put "/monitors/:monitor_id/status" [] Endpoint.update_monitor_status
    ∷ route Method.post "/monitors/:monitor_id/terminate" [] Endpoint.terminate_monitor
    ∷ [])

abbrev pub routes : List Route
routes = health_routes ++ v1_routes ++ internal_routes

-- A request, with its body as the endpoint that it is for would bind it. An absent header reads as the
-- empty text.
pub record Request : Type 0 where
  pub method : Method
  pub path : String
  pub api_key_header : String
  pub authorization : String
  pub internal_api_key_header : String
  pub client_ip : String
  pub time : ℕ
  pub create_body : Option CreateMonitorRequest
  pub patch_body : Option PatchMonitorRequest
  pub status_body : Option UpdateStatusRequest
  pub terminate_binds : Bool
  pub query : ListQuery

pub data Answer : Type 0 where
  not_routed : Answer
  unauthorized : Authorization → Answer
  rate_limit_exceeded healthy ready not_ready : Answer
  handled : Response → Answer

abbrev pub same_method : Method → Method → Bool
same_method Method.get Method.get = true
same_method Method.post Method.post = true
same_method Method.put Method.put = true
same_method Method.patch Method.patch = true
same_method Method.delete Method.delete = true
same_method _ _ = false

-- gin's matching of a path with a pattern, and the part of the path that `:monitor_id` stands for.
pub record Matching : Type 0 where
  pub matches : (pattern path : String) → Bool
  pub monitor_id : (pattern path : String) → String

abbrev pub find_route : Matching → Request → List Route → Option Route
find_route g q [] = none
find_route g q (r ∷ rs) =
    let rest : Option Route = find_route g q rs in
    if same_method r.method q.method && g.matches r.pattern q.path then some r else rest

-- An answer where the middleware aborts.
abbrev pub unless_authorized : Authorization → Option Answer
unless_authorized authorized = none
unless_authorized a = some (unauthorized a)

-- The keys of the configuration.
pub record Keys : Type 0 where
  pub api_key : String
  pub internal_api_key : String

module _ (api : Server) (heap : Heap) (buckets : Buckets) where
  -- The state that the requests share.
  pub record Gateway : Type 0 where
    pub server : api.S
    pub limiters : LimiterRegistry (Limited heap buckets)

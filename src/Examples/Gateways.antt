-- ===== src/Examples/Gateways.antt =====
-- cmd/gateway/main.go at requests without a key, and with one.
use youtube_stream_tracker.Config.{get_env}
use youtube_stream_tracker.Handlers.{Response}
use youtube_stream_tracker.Examples.Configs.{lookup}
use youtube_stream_tracker.Examples.Limits.{tokens, sorted_list}
use youtube_stream_tracker.Config.{Environment}
use youtube_stream_tracker.Handlers.Listing.{ListQuery}
use youtube_stream_tracker.Examples.Storage.{sample_object, memory}
use youtube_stream_tracker.Gateway.Guards.{serve-handled, HasKey, serve-unauthorized}
use youtube_stream_tracker.Gateway.Routing.{is_open, is_internal}
use youtube_stream_tracker.Config.Gateway.{gateway_values, load_gateway_config}
use youtube_stream_tracker.Gateway.Boot.{
  boot-serving, start_serving, Started, Surroundings, ServesFrom, boot, start_clients,
}
use youtube_stream_tracker.Prelude.{
  eq_iff, sym, ◌==◌, false, String, List, true, str_eq, ◌≡◌, [], if◌then◌else◌, ◌≢◌, refl, ◌∷◌,
  none, some,
}
use youtube_stream_tracker.Gateway.{
  Request, Keys, Matching, Method, Route, routes, find_route, handled,
}
use youtube_stream_tracker.Gateway.Serving.{
  run_route, run_guards, run_guard, run_endpoint, handle_endpoint, Services, State, serve,
}
use youtube_stream_tracker.Middleware.{api_key_auth, check_key, bearer_key}
use youtube_stream_tracker.Handlers.Public.{delete_monitor}
use youtube_stream_tracker.Store.Writes.{delete}
use youtube_stream_tracker.Middleware.Keys.{true≢false}
use youtube_stream_tracker.Model.{MonitorStatus}
use youtube_stream_tracker.Examples.Requests.{handler, cluster}

abbrev pub paths : Matching
paths = record { matches = str_eq; monitor_id = λ pattern path. "mon-1" }

abbrev pub services : Services memory
services = record {
  handler = handler;
  heap = sorted_list;
  buckets = tokens;
  format = λ limit window. if limit == 25 then "25" else "100";
  newest_first = λ ms. ms;
  matching = paths;
  cache_synced = λ s. true;
}

abbrev pub keys : Keys
keys = record { api_key = "public"; internal_api_key = "internal" }

abbrev empty_query : ListQuery
empty_query = record { status = MonitorStatus.other ""; limit = none; offset = none }

-- A deletion without a key.
abbrev keyless : Request
keyless = record {
  method = Method.delete;
  path = "/api/v1/monitors/:monitor_id";
  api_key_header = "";
  authorization = "";
  internal_api_key_header = "";
  client_ip = "10.0.0.1";
  time = 5;
  create_body = none;
  patch_body = none;
  status_body = none;
  terminate_binds = true;
  query = empty_query;
}

abbrev authorized_deletion : Request
authorized_deletion = record keyless { authorization = "Bearer public" }

abbrev pub gateway : State memory services keys
gateway = record {
  server = some sample_object;
  limiters = record { limiters = []; started = false };
}

serve-unauthorized_example :
    ((serve memory services keys keyless gateway).1 ≡ gateway)
    × ((x : Response) → (serve memory services keys keyless gateway).0 ≢ handled x)
unfolding bearer_key
serve-unauthorized_example =
    serve-unauthorized memory services keys keyless gateway
      (λ h. true≢false (sym ((eq_iff "" "public").1 h)))
      (λ h. true≢false (sym ((eq_iff "" "internal").1 h)))

serve-handled_example :
    (r : Route) × (find_route paths authorized_deletion routes ≡ some r)
    × (is_open r.endpoint ≡ false)
    × HasKey (is_internal r.endpoint) keys authorized_deletion
unfolding serve run_route run_guards run_guard api_key_auth check_key bearer_key run_endpoint
    handle_endpoint delete_monitor delete
serve-handled_example =
    serve-handled memory services keys authorized_deletion gateway (Response.monitor_deleted true)
      refl

abbrev gateway_variables : List (String × String)
gateway_variables =
    ("API_KEY", "public") ∷ ("INTERNAL_API_KEY", "internal") ∷ ("WEBHOOK_SIGNING_KEY", "k") ∷ []

abbrev gateway_environment : Environment
gateway_environment = record {
  getenv = lookup gateway_variables;
  atoi = λ s. none;
  parse_int = λ s. none;
  parse_bool = λ s. none;
  parse_duration = λ s. none;
  unmarshal_config = λ s. none;
  unmarshal_metadata = λ s. none;
}

abbrev surroundings : Surroundings memory
surroundings = record {
  logger_ready = true;
  environment = gateway_environment;
  k8s_client_made = λ c. true;
  rest_config_made = λ c. true;
  dynamic_client_made = true;
  cache_synced = λ s. true;
  cluster = cluster;
  oldest_first = λ ms. ms;
  cache = λ s. sample_object ∷ [];
}

abbrev started : Started memory
started =
    start_serving memory surroundings (gateway_values gateway_environment) (some sample_object)

boot-serving_example : ServesFrom memory surroundings (some sample_object) started
unfolding boot start_clients load_gateway_config gateway_values get_env
boot-serving_example = boot-serving memory surroundings (some sample_object) started refl

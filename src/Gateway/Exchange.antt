-- ===== src/Gateway/Exchange.antt =====
-- cmd/gateway/main.go and internal/worker/callback.go: a worker's requests as the gateway receives and answers
-- them. The path of a URL and the client's address are parameters.
pub mod Reports
pub mod Terminations
use youtube_stream_tracker.Middleware.Keys.{api_key_auth-authorized}
use youtube_stream_tracker.Middleware.{
  invalid_key, key_required, authorized, internal_api_key_auth, Authorization,
}
use youtube_stream_tracker.Store.Writes.{update_phase}
use youtube_stream_tracker.Handlers.Internal.{
  is_valid_monitor_status, write_reported_status, update_monitor_status, update_reported_stats,
  is_valid_stream_status, health_request_is_invalid,
}
use youtube_stream_tracker.Store.Objects.{stream_is_empty}
use youtube_stream_tracker.Callback.{
  StatusRequest, HttpRequest, CallbackClient, callback_report_status, call, status_body,
  reason_body, status_request,
}
use youtube_stream_tracker.Callback.Delivered.{received}
use youtube_stream_tracker.Gateway.{
  Answer, Keys, Method, Request, Route, find_route, handled, healthy, not_ready, not_routed,
  rate_limit_exceeded, ready, routes, unauthorized, needs_internal_api_key, Endpoint,
}
use youtube_stream_tracker.Gateway.Serving.{
  Services, State, serve, run_route, run_guards, run_guard, run_endpoint, handle_endpoint,
}
use youtube_stream_tracker.Handlers.{
  Handler, Response, UpdateStatusRequest, duplicate_monitor, internal_error, invalid_config,
  invalid_url, max_monitors, monitor_created, monitor_not_active, not_found, validation_error,
}
use youtube_stream_tracker.Middleware.Replies.{
  ErrorCode, HttpReply, respond_conflict, respond_created, respond_error, respond_internal_error,
  respond_not_found, respond_ok, respond_unauthorized, respond_validation_error,
}
use youtube_stream_tracker.Model.{MonitorStatus}
use youtube_stream_tracker.Store.Api.{done, Result-cases, Server, StoreError}
use youtube_stream_tracker.Validation.{validate_outbound_url, Network}
use youtube_stream_tracker.Worker.World.{StatusUpdate}
use youtube_stream_tracker.Prelude.{
  sym, subst, Option-cases, str_append, ◌≢◌, inl, inr, not, Bool-cases, ltb, true, refl, ◌≡◌, ◌∷◌,
  arith, [], ◌&&◌, Option, String, none, some, ℕ,
}

unfoldable pub response_reply : Response → HttpReply
response_reply validation_error = respond_validation_error
response_reply invalid_url = respond_error 400 ErrorCode.invalid_url
response_reply (invalid_config x) = respond_error 400 ErrorCode.invalid_config
response_reply max_monitors = respond_error 429 ErrorCode.max_monitors
response_reply duplicate_monitor = respond_conflict ErrorCode.duplicate_monitor
response_reply monitor_not_active = respond_conflict ErrorCode.monitor_not_active
response_reply internal_error = respond_internal_error
response_reply not_found = respond_not_found
response_reply (monitor_created m) = respond_created
response_reply _ = respond_ok

-- gin answers 404 where no route matches, with no error code.
unfoldable pub answer_reply : Answer → HttpReply
answer_reply not_routed = record { status = 404; code = none }
answer_reply (unauthorized a) = respond_unauthorized
answer_reply rate_limit_exceeded = respond_error 429 ErrorCode.rate_limit_exceeded
answer_reply not_ready = record { status = 503; code = none }
answer_reply healthy = respond_ok
answer_reply ready = respond_ok
answer_reply (handled r) = response_reply r

abbrev pub status_route : Route
status_route = record {
  method = Method.put;
  pattern = "/internal/v1/monitors/:monitor_id/status";
  guards = needs_internal_api_key ∷ [];
  endpoint = Endpoint.update_monitor_status;
}

abbrev pub terminate_route : Route
terminate_route = record {
  method = Method.post;
  pattern = "/internal/v1/monitors/:monitor_id/terminate";
  guards = needs_internal_api_key ∷ [];
  endpoint = Endpoint.terminate_monitor;
}

-- A worker's request before its body is read.
abbrev bare_request : Method → (path client_ip key : String) (time : ℕ) → Request
bare_request method path client_ip key time = record {
  method = method;
  path = path;
  api_key_header = "";
  authorization = "";
  internal_api_key_header = key;
  client_ip = client_ip;
  time = time;
  create_body = none;
  patch_body = none;
  status_body = none;
  terminate_binds = true;
  query = record { status = MonitorStatus.other ""; limit = none; offset = none };
}

-- A status report as the gateway reads it.
abbrev pub arriving : (path client_ip key : String) (time : ℕ) → StatusRequest → Request
arriving path client_ip key time req = record (bare_request Method.put path client_ip key time) {
  status_body = some (received req);
}

module _ (api : Server) (sv : Services api) (keys : Keys) (path_of : String → String)
    (client_ip : String) (time : ℕ) (g : State api sv keys) where
  -- The request for a worker's status report.
  abbrev pub report : CallbackClient → String → StatusRequest → Request
  report c id req =
      let url =
        str_append c.base_url (str_append "/internal/v1/monitors/" (str_append id "/status")) in
      arriving (path_of url) client_ip c.internal_api_key time req

  -- The request for a worker's termination, whose body can be read.
  abbrev pub termination : CallbackClient → String → Request
  termination c id =
      let url =
        str_append c.base_url (str_append "/internal/v1/monitors/" (str_append id "/terminate")) in
      bare_request Method.post (path_of url) client_ip c.internal_api_key time

  abbrev answered_status : Request → ℕ
  answered_status q = (answer_reply (serve api sv keys q g).0).status

  -- A request sent to the gateway, and the status of the answer.
  unfoldable pub exchange : HttpRequest → Option ℕ
  exchange q = elim q.body [
    | status_body req ↦
        some (answered_status (arriving (path_of q.url) client_ip q.x_internal_api_key time req))
    | reason_body reason ↦ some (
        answered_status
          (bare_request Method.post (path_of q.url) client_ip q.x_internal_api_key time))
  ]

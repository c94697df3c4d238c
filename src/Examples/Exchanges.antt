-- ===== src/Examples/Exchanges.antt =====
-- internal/worker/callback.go and cmd/gateway/main.go at a worker's first report, and at its termination.
use youtube_stream_tracker.Store.Writes.{write_status, update_phase}
use youtube_stream_tracker.Handlers.Internal.{terminate_monitor, write_reported_status}
use youtube_stream_tracker.Middleware.{check_key, internal_api_key_auth}
use youtube_stream_tracker.Validation.{
  check_parsed, check_resolved, validate_outbound_url, check_host,
}
use youtube_stream_tracker.Examples.Networks.{network}
use youtube_stream_tracker.Callback.Delivered.{received}
use youtube_stream_tracker.Callback.{
  callback_terminate_monitor, call, CallbackClient, callback_report_status, status_request,
}
use youtube_stream_tracker.Examples.Gateways.{gateway, keys, services}
use youtube_stream_tracker.Examples.Storage.{memory}
use youtube_stream_tracker.Examples.Requests.{handler}
use youtube_stream_tracker.Gateway.Exchange.{
  termination, answer_reply, response_reply, exchange, report,
}
use youtube_stream_tracker.Gateway.Exchange.Terminations.{
  IsEnded, callback_terminate_monitor-IsEnded,
}
use youtube_stream_tracker.Gateway.Exchange.Reports.{IsStored, report_status-IsStored}
use youtube_stream_tracker.Handlers.Internal.{update_monitor_status}
use youtube_stream_tracker.Store.Writes.{delete}
use youtube_stream_tracker.Gateway.Serving.{
  run_route, run_endpoint, run_guard, run_guards, handle_endpoint, serve,
}
use youtube_stream_tracker.Model.{MonitorStatus}
use youtube_stream_tracker.Prelude.{true, refl, String, none, ◌≡◌, ◌≢◌}

abbrev client : CallbackClient
client = record { base_url = "gateway"; internal_api_key = "internal" }

abbrev path_of : String → String
path_of url = "/internal/v1/monitors/:monitor_id/status"

accepted_report :
    callback_report_status network
      (exchange memory services keys path_of "10.0.0.2" 5 gateway)
      client
      "mon-1"
      MonitorStatus.monitoring
      none
    ≡ true
unfolding callback_report_status call validate_outbound_url check_parsed check_host check_resolved
    exchange answer_reply response_reply serve run_route run_guards run_guard internal_api_key_auth
    check_key run_endpoint handle_endpoint update_monitor_status write_reported_status update_phase
    received status_request write_status
accepted_report = refl

report_status-IsStored_example :
    ("internal" ≡ keys.internal_api_key)
    × (keys.internal_api_key ≢ "")
    × IsStored memory handler "mon-1"
        (received (status_request MonitorStatus.monitoring none))
        gateway.server
        (serve memory services keys
          (report memory services keys path_of "10.0.0.2" 5 gateway client "mon-1"
            (status_request MonitorStatus.monitoring none))
          gateway).1.server
report_status-IsStored_example =
    report_status-IsStored memory services keys path_of "10.0.0.2" 5 gateway network client "mon-1"
      MonitorStatus.monitoring none refl refl accepted_report

abbrev end_path : String → String
end_path url = "/internal/v1/monitors/:monitor_id/terminate"

accepted_termination :
    callback_terminate_monitor network
      (exchange memory services keys end_path "10.0.0.2" 5 gateway)
      client
      "mon-1"
      "stream_ended"
    ≡ true
unfolding callback_terminate_monitor call validate_outbound_url check_parsed check_host
    check_resolved exchange answer_reply response_reply serve run_route run_guards run_guard
    internal_api_key_auth check_key run_endpoint handle_endpoint terminate_monitor delete
accepted_termination = refl

callback_terminate_monitor-IsEnded_example :
    ("internal" ≡ keys.internal_api_key)
    × (keys.internal_api_key ≢ "")
    × IsEnded memory handler "mon-1" gateway.server
        (serve memory services keys
          (termination memory services keys end_path "10.0.0.2" 5 gateway client "mon-1")
          gateway).1.server
callback_terminate_monitor-IsEnded_example =
    callback_terminate_monitor-IsEnded memory services keys end_path "10.0.0.2" 5 gateway network
      client "mon-1" "stream_ended" refl refl accepted_termination

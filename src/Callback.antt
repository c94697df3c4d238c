-- ===== src/Callback.antt =====
-- internal/worker/callback.go: what a worker tells the gateway.
pub mod Delivered
use youtube_stream_tracker.Store.Objects.{health_is_empty}
use youtube_stream_tracker.Validation.{validate_outbound_url, Network}
use youtube_stream_tracker.Model.{HealthStatus, StreamStatus, MonitorStatus}
use youtube_stream_tracker.Worker.World.{StatusUpdate}
use youtube_stream_tracker.Prelude.{
  ltb, false, true, none, str_append, not, Bool, ℕ, some, Option, String, if◌then◌else◌, ◌||◌,
}

pub record CallbackClient : Type 0 where
  pub base_url : String
  pub internal_api_key : String

-- The health is video and audio, the statistics are segments, blackouts and silences.
pub record StatusRequest : Type 0 where
  pub status : MonitorStatus
  pub stream_status : StreamStatus
  pub health : Option (HealthStatus × HealthStatus)
  pub statistics : Option (ℕ × ℕ × ℕ)

unfoldable pub status_request : MonitorStatus → Option StatusUpdate → StatusRequest
status_request status none = record {
  status = status;
  stream_status = StreamStatus.other "";
  health = none;
  statistics = none;
}
status_request status (some u) = record {
  status = status;
  stream_status = u.stream_status;
  health =
      if not (health_is_empty u.video_health) || not (health_is_empty u.audio_health)
      then some (u.video_health, u.audio_health)
      else none;
  statistics =
      if ltb 0 u.total_segments || ltb 0 u.blackout_events || ltb 0 u.silence_events
      then some (u.total_segments, u.blackout_events, u.silence_events)
      else none;
}

pub data Body : Type 0 where
  status_body : StatusRequest → Body
  reason_body : String → Body

pub record HttpRequest : Type 0 where
  pub method : String
  pub url : String
  pub content_type : String
  pub x_internal_api_key : String
  pub body : Body

-- `exchange` sends a request: the status of the answer, or `none`. `true` is no error.
unfoldable pub call :
    Network
    → (exchange : HttpRequest → Option ℕ) → CallbackClient
    → (method path : String) → Body
    → Bool
call net exchange c method path body = elim (validate_outbound_url net c.base_url true) [
  | some x ↦ false
  | none ↦
      elim (exchange (record {
        method = method;
        url = str_append c.base_url (str_append "/internal/v1/monitors/" path);
        content_type = "application/json";
        x_internal_api_key = c.internal_api_key;
        body = body;
      })) [ none ↦ false | some code ↦ ltb code 400 ]
]

unfoldable pub callback_report_status :
    Network
    → (HttpRequest → Option ℕ)
    → CallbackClient
    → (monitor_id : String) → MonitorStatus
    → Option StatusUpdate
    → Bool
callback_report_status net exchange c monitor_id status update =
    call net exchange c "PUT" (str_append monitor_id "/status")
      (status_body (status_request status update))

unfoldable pub callback_terminate_monitor :
    Network → (HttpRequest → Option ℕ) → CallbackClient → (monitor_id reason : String) → Bool
callback_terminate_monitor net exchange c monitor_id reason =
    call net exchange c "POST" (str_append monitor_id "/terminate") (reason_body reason)

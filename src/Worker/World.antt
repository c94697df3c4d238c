-- ===== src/Worker/World.antt =====
-- internal/worker/worker.go: the worker's state, and the world in which its methods run.
-- What the worker asks of the outside (yt-dlp, manifests, ffmpeg, the gateway, the webhook
-- receiver, the clock) is answered by an `Env`, a function of the number of questions asked so far;
-- what it does to the outside is written to a trace, newest first. The goroutine that waits for
-- the context's end may run between any two steps: `advance` lets it run where the `Env` says so.
use youtube_stream_tracker.Prelude.{
  some, ℕ, suc, String, Bool, true, false, Option, none, List, ◌∷◌, if◌then◌else◌,
}
use youtube_stream_tracker.Model.{MonitorStatus, HealthStatus, StreamStatus}
use youtube_stream_tracker.Manifest.Segment.{Segment}

pub data State : Type 0 where
  waiting monitoring completed error : State

-- What `info.LiveStatus` may hold.
pub data LiveStatus : Type 0 where
  is_live is_upcoming was_live not_live : LiveStatus
  other : String → LiveStatus

pub record StreamInfo : Type 0 where
  pub live_status : LiveStatus
  pub title : String

-- The parts of ffmpeg's result that the worker reads.
pub record AnalysisResult : Type 0 where
  pub fully_black : Bool
  pub fully_silent : Bool

pub data EventType : Type 0 where
  stream_started stream_ended stream_delayed stream_suspended stream_resumed : EventType
  alert_blackout alert_blackout_recovered alert_silence alert_silence_recovered : EventType
  alert_segment_error monitor_error : EventType

-- The errors that the methods return, without the texts that they wrap.
pub data WorkerError : Type 0 where
  ensure_tmp_dir worker_in_error_state webhook_delivery_failed get_manifest_url : WorkerError
  check_endlist get_latest_segment fetch_segment save_segment analyze_segment : WorkerError

pub data EndReason : Type 0 where
  endlist_detected segment_error_threshold stream_no_longer_live : EndReason
  live_status : LiveStatus → EndReason

-- The map `data` of a webhook. Times and durations are milliseconds; `_sec` fields are seconds.
pub data EventData : Type 0 where
  no_data : EventData
  title : String → EventData
  reason : EndReason → EventData
  delay : (scheduled_start_time delay_sec tolerance_sec : ℕ) → EventData
  alert : (duration started_at threshold_sec : ℕ) (segment_info : Option (ℕ × ℕ)) → EventData
  recovered : (total_duration started_at recovered_at : ℕ) → EventData
  segment_error : WorkerError → (duration_sec : ℕ) → EventData

pub record Payload : Type 0 where
  pub event_type : EventType
  pub monitor_id : String
  pub stream_url : String
  pub timestamp : ℕ
  pub event_data : EventData
  pub metadata : Option String

-- callback.go's `StatusUpdate`.
pub record StatusUpdate : Type 0 where
  pub stream_status : StreamStatus
  pub video_health : HealthStatus
  pub audio_health : HealthStatus
  pub total_segments : ℕ
  pub blackout_events : ℕ
  pub silence_events : ℕ

pub data Effect : Type 0 where
  sent : (webhook_url : String) → Payload → (success : Bool) → Effect
  reported : MonitorStatus → Option StatusUpdate → Effect
  terminated : (reason : String) → Effect
  fetched saved analyzed : String → Effect
  -- `CleanupSegment`, whose error is only logged, and whether it removed the file
  cleaned : String → (removed : Bool) → Effect
  -- the call of `CleanupMonitor`, whose error is only logged
  cleaned_monitor : Effect
  -- the ticker of the waiting mode is made anew
  waiting_ticker : (interval : ℕ) → Effect

-- The fields of `config.WorkerConfig` that the worker's methods read.
pub record Config : Type 0 where
  pub monitor_id : String
  pub stream_url : String
  pub webhook_url : String
  pub scheduled_start_time : Option ℕ
  pub waiting_mode_initial_interval : ℕ
  pub waiting_mode_delayed_interval : ℕ
  pub analysis_interval : ℕ
  pub blackout_threshold : ℕ
  pub silence_threshold : ℕ
  pub delay_threshold : ℕ

-- `none` for a time is Go's nil pointer, or the zero `time.Time`, which is longer ago than any
-- threshold. The flag `shutdown_requested` is also the closed channel `shutdownCh`.
pub record Worker : Type 0 where
  pub cfg : Config
  pub state : State
  pub stream_status : StreamStatus
  pub current_manifest_url : String
  pub last_segment_sequence : ℕ
  pub last_segment_url : String
  pub segment_error_start : Option ℕ
  pub segment_error_sent : Bool
  pub last_live_check : Option ℕ
  pub last_segment_info : Option Segment
  pub last_new_segment_time : Option ℕ
  pub suspended_alert_sent : Bool
  pub manifest_url_changed : Bool
  pub blackout_start : Option ℕ
  pub silence_start : Option ℕ
  pub total_segments : ℕ
  pub blackout_events : ℕ
  pub silence_events : ℕ
  pub blackout_alert_sent : Bool
  pub silence_alert_sent : Bool
  pub consecutive_black : ℕ
  pub consecutive_silence : ℕ
  pub shutdown_requested : Bool
  pub has_cancel_work : Bool
  pub work_cancelled : Bool
  pub metadata : Option String

unfoldable pub new_worker : Config → Worker
new_worker cfg = record {
  cfg = cfg;
  state = State.waiting;
  stream_status = StreamStatus.unknown;
  current_manifest_url = "";
  last_segment_sequence = 0;
  last_segment_url = "";
  segment_error_start = none;
  segment_error_sent = false;
  last_live_check = none;
  last_segment_info = none;
  last_new_segment_time = none;
  suspended_alert_sent = false;
  manifest_url_changed = false;
  blackout_start = none;
  silence_start = none;
  total_segments = 0;
  blackout_events = 0;
  silence_events = 0;
  blackout_alert_sent = false;
  silence_alert_sent = false;
  consecutive_black = 0;
  consecutive_silence = 0;
  shutdown_requested = false;
  has_cancel_work = false;
  work_cancelled = false;
  metadata = none;
}

unfoldable pub set_metadata : Option String → Worker → Worker
set_metadata m w = record w { metadata = m }

-- Each answer is a function of the tick at which the question is asked; `none` is an error.
pub record Env : Type 0 where
  pub clock : ℕ → ℕ
  -- the goroutine of `Run` has seen the end of the context, and runs at this tick
  pub shutdown_signalled : ℕ → Bool
  pub ctx_done : ℕ → Bool
  -- which ready case a `select` takes
  pub pick_shutdown : ℕ → Bool
  -- how often the refresh ticker is found ready before it is found not ready
  pub refreshes : ℕ → ℕ
  pub tmp_dir_ready : ℕ → Bool
  pub stream_live : ℕ → Option (Bool × Option StreamInfo)
  pub manifest_url : ℕ → Option String
  pub end_list : ℕ → Option Bool
  pub latest_segment : ℕ → Option Segment
  pub segment_data : ℕ → Option String
  pub segment_path : ℕ → Option String
  pub segment_removed : ℕ → Bool
  pub analysis : ℕ → Option AnalysisResult
  pub delivered : ℕ → Bool

pub record World : Type 0 where
  pub worker : Worker
  pub tick : ℕ
  pub trace : List Effect

abbrev pub M : Type 0 → Type 0
M A = Env → World → A × World

infixl 5 ◌>>=◌ ◌>>◌
unfoldable pub ◌>>=◌ : {A B : Type 0} → M A → (A → M B) → M B
◌>>=◌ m f e w = let (a, w') = m e w in f a e w'

unfoldable pub ◌>>◌ : {A B : Type 0} → M A → M B → M B
◌>>◌ m k e w = let (a, w') = m e w in k e w'

unfoldable pub pure : {A : Type 0} → A → M A
pure a e w = (a, w)

unfoldable pub on_answer : {A B : Type 0} → Option A → M B → (A → M B) → M B
on_answer none m f = m
on_answer (some a) m f = f a

-- `requestShutdown`: the new state, and whether this call was the first.
unfoldable pub request_shutdown : Worker → Worker × Bool
request_shutdown w =
    if w.shutdown_requested
    then (w, false)
    else (record w { shutdown_requested = true; work_cancelled = w.has_cancel_work }, true)

unfoldable pub advance : Env → World → World
advance e w = record w {
  tick = suc w.tick;
  worker = if e.shutdown_signalled w.tick then (request_shutdown w.worker).0 else w.worker;
}

-- A question to the outside.
unfoldable pub ask : {A : Type 0} → (Env → ℕ → A) → M A
ask q e w = (q e w.tick, advance e w)

unfoldable pub emit : Effect → M (Unit {0})
emit x e w = (tt, record w { trace = x ∷ w.trace })

unfoldable pub modify : (Worker → Worker) → M (Unit {0})
modify f e w = (tt, record w { worker = f w.worker })

-- A critical section: a new state and a result.
unfoldable pub update : {A : Type 0} → (Worker → Worker × A) → M A
update f e w = let (v, a) = f w.worker in (a, record w { worker = v })

unfoldable pub gets : {A : Type 0} → (Worker → A) → M A
gets f e w = (f w.worker, w)

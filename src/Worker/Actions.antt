-- ===== src/Worker/Actions.antt =====
-- internal/worker/worker.go: the small methods that the modes are made of.
use youtube_stream_tracker.Prelude.{
  ℕ, String, Bool, false, ◌||◌, Option, none, some, is_some, if◌then◌else◌,
}
use youtube_stream_tracker.Model.{MonitorStatus, HealthStatus}
use youtube_stream_tracker.Worker.World.{
  State, EventType, EventData, Payload, StatusUpdate, sent, reported, terminated, Worker, M, ◌>>=◌,
  ◌>>◌, pure, ask, emit, modify, gets, advance,
}

-- `time.Now()`, in milliseconds.
unfoldable pub now : M ℕ
now = ask λ e n. e.clock n

unfoldable pub get_state : M State
get_state = gets λ w. w.state

unfoldable pub set_state : State → M (Unit {0})
set_state s = modify λ w. record w { state = s }

-- The goroutine may have run just before the flag is read.
unfoldable pub is_shutdown_requested : M Bool
is_shutdown_requested e w = let w' = advance e w in (w'.worker.shutdown_requested, w')

-- `ctx.Err() != nil` for the work context: its parent is done, or `cancelWork` was called.
unfoldable pub ctx_err : M Bool
ctx_err e w = let w' = advance e w in (e.ctx_done w.tick || w'.worker.work_cancelled, w')

-- A `select` between `shutdownCh` and a timer: whether it takes the first.
unfoldable pub select_shutdown : M Bool
select_shutdown e w =
    let w' = advance e w in
    (if w'.worker.shutdown_requested then e.pick_shutdown w.tick else false, w')

unfoldable pub deliver : String → Payload → M Bool
deliver url p = do success ← ask (λ e n. e.delivered n); emit (sent url p success); pure success

-- The callback client is never nil: `NewWorkerWithDeps` sets it.
unfoldable pub send_webhook : EventType → EventData → M (Unit {0})
send_webhook event_type event_data = do
  timestamp ← now
  w ← gets (λ w. w)
  success ← deliver w.cfg.webhook_url (record {
    event_type = event_type;
    monitor_id = w.cfg.monitor_id;
    stream_url = w.cfg.stream_url;
    timestamp = timestamp;
    event_data = event_data;
    metadata = w.metadata;
  })
  if success then pure tt else do
    stopping ← is_shutdown_requested
    done ← ctx_err
    if stopping || done
        then pure tt
        else do set_state State.error; emit (terminated "webhook_delivery_failed")

-- An error of the gateway is only logged.
unfoldable pub report_status : MonitorStatus → Option StatusUpdate → M (Unit {0})
report_status status stats = emit (reported status stats)

-- `getVideoHealth` and `getAudioHealth`.
unfoldable pub health : Option ℕ → HealthStatus
health start = if is_some start then HealthStatus.warning else HealthStatus.ok

unfoldable pub status_update : Worker → StatusUpdate
status_update w = record {
  stream_status = w.stream_status;
  video_health = health w.blackout_start;
  audio_health = health w.silence_start;
  total_segments = w.total_segments;
  blackout_events = w.blackout_events;
  silence_events = w.silence_events;
}

unfoldable pub report_status_update : M (Unit {0})
report_status_update = do
  stats ← gets status_update
  emit (reported MonitorStatus.monitoring (some stats))

unfoldable pub transition_to_error : M (Unit {0})
transition_to_error = do set_state State.error; report_status MonitorStatus.error none

unfoldable pub graceful_shutdown : M (Unit {0})
graceful_shutdown = report_status MonitorStatus.stopped none

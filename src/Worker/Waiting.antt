-- ===== src/Worker/Waiting.antt =====
-- internal/worker/worker.go: the waiting mode. Its `for` is a loop on fuel over a step of its own; what
-- a step ends with says how the loop goes on.
pub mod Outcome
use youtube_stream_tracker.Prelude.{
  ℕ, zero, suc, ◌+◌, ◌-◌, ◌/◌, String, Bool, true, false, not, ◌&&◌, Option, none, some, str_eq,
  ltb, ◌==◌, if◌then◌else◌,
}
use youtube_stream_tracker.Model.{MonitorStatus, StreamStatus}
use youtube_stream_tracker.Worker.World.{
  State, LiveStatus, StreamInfo, stream_started, stream_ended, stream_delayed, title, reason, delay,
  EndReason, WorkerError, cleaned_monitor, waiting_ticker, Worker, M, ◌>>=◌, ◌>>◌, pure, ask,
  on_answer, emit, modify, gets,
}
use youtube_stream_tracker.Worker.Actions.{
  now, get_state, set_state, is_shutdown_requested, select_shutdown, send_webhook, report_status,
  transition_to_error, graceful_shutdown,
}
use youtube_stream_tracker.Worker.Segments.{
  is_error, is_completed, check_live_status, analyze_latest_segment, handle_segment_error,
  clear_segment_error,
}

-- What a mode, or `Run`, returns.
pub data Exit : Type 0 where
  finished : Exit
  failed : WorkerError → Exit
  out_of_fuel : Exit

-- How a round of the waiting mode ends: the loop's variables are the ticker's interval and
-- whether stream.delayed was sent.
pub data Round : Type 0 where
  leave : Exit → Round
  again : ℕ → Bool → Round

abbrev pub title_of : Option StreamInfo → String
title_of none = ""
title_of (some info) = info.title

unfoldable pub begin_monitoring : Option StreamInfo → M Round
begin_monitoring info = do
  modify λ w. record w { stream_status = StreamStatus.live }
  send_webhook stream_started (title (title_of info))
  s ← get_state
  if is_error s
      then (do
        report_status MonitorStatus.error none
        pure (leave (failed WorkerError.webhook_delivery_failed)))
      else do set_state State.monitoring; pure (leave finished)

-- After the scheduled start the stream is asked for at the delayed interval.
unfoldable pub next_interval : ℕ → M ℕ
next_interval interval = do
  cfg ← gets (λ w. w.cfg)
  on_answer cfg.scheduled_start_time (pure interval) (λ start. do
    t ← now
    if ltb start t && not (interval == cfg.waiting_mode_delayed_interval)
        then (do
          emit (waiting_ticker cfg.waiting_mode_delayed_interval)
          pure cfg.waiting_mode_delayed_interval)
        else pure interval)

unfoldable pub check_delay : Bool → M Bool
check_delay alert_sent = do
  cfg ← gets (λ w. w.cfg)
  on_answer cfg.scheduled_start_time (pure alert_sent) (λ start.
      if alert_sent then pure true else do
        t ← now
        if ltb (start + cfg.delay_threshold) t
            then (do
              t' ← now
              send_webhook stream_delayed
                  (delay start ((t' - start) / 1000) (cfg.delay_threshold / 1000))
              pure true)
            else pure false)

-- The stream is over before it was monitored.
unfoldable pub already_ended : LiveStatus → M Round
already_ended status = do
  modify λ w. record w { stream_status = StreamStatus.ended }
  send_webhook stream_ended (reason (EndReason.live_status status))
  s ← get_state
  if is_error s
      then (do
        report_status MonitorStatus.error none
        pure (leave (failed WorkerError.webhook_delivery_failed)))
      else do
        set_state State.completed
        report_status MonitorStatus.completed none
        pure (leave finished)

-- `switch info.LiveStatus`
unfoldable pub follow_status : ℕ → Bool → LiveStatus → M Round
follow_status interval alert_sent LiveStatus.is_upcoming = do
  modify λ w. record w { stream_status = StreamStatus.scheduled }
  pure (again interval alert_sent)
follow_status interval alert_sent LiveStatus.was_live = already_ended LiveStatus.was_live
follow_status interval alert_sent LiveStatus.not_live = already_ended LiveStatus.not_live
follow_status interval alert_sent _ = pure (again interval alert_sent)

unfoldable pub follow_info : ℕ → Bool → Option StreamInfo → M Round
follow_info interval alert_sent none = pure (again interval alert_sent)
follow_info interval alert_sent (some info) = follow_status interval alert_sent info.live_status

unfoldable pub not_yet_live : ℕ → Bool → Option StreamInfo → M Round
not_yet_live interval alert_sent info = do
  interval' ← next_interval interval
  alert_sent' ← check_delay alert_sent
  follow_info interval' alert_sent' info

-- The first check is made at once, a later one after the ticker.
unfoldable pub wait_for_tick : Bool → M Bool
wait_for_tick true = pure false
wait_for_tick false = select_shutdown

unfoldable pub check_stream : ℕ → Bool → M Round
check_stream interval alert_sent = do
  answer ← ask (λ e n. e.stream_live n)
  on_answer answer (pure (again interval alert_sent)) (λ (is_live, info).
      if is_live then begin_monitoring info else not_yet_live interval alert_sent info)

unfoldable pub waiting_round : ℕ → Bool → Bool → M Round
waiting_round interval alert_sent first_check = do
  s ← get_state
  if is_error s then pure (leave (failed WorkerError.worker_in_error_state)) else do
    stopping ← is_shutdown_requested
    if stopping then pure (leave finished) else do
      stopped ← wait_for_tick first_check
      if stopped then pure (leave finished) else check_stream interval alert_sent

unfoldable pub waiting_loop : ℕ → ℕ → Bool → Bool → M Exit
waiting_loop zero interval alert_sent first_check = pure out_of_fuel
waiting_loop (suc fuel) interval alert_sent first_check = do
  r ← waiting_round interval alert_sent first_check
  elim r [
    | leave x ↦ pure x
    | again interval' alert_sent' ↦ waiting_loop fuel interval' alert_sent' false
  ]

unfoldable pub waiting_mode : ℕ → M Exit
waiting_mode fuel = do
  report_status MonitorStatus.waiting none
  interval ← gets (λ w. w.cfg.waiting_mode_initial_interval)
  emit (waiting_ticker interval)
  waiting_loop fuel interval false true

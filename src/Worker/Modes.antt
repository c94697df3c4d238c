-- ===== src/Worker/Modes.antt =====
-- internal/worker/worker.go: the monitoring mode and the main loop `Run`. Each `for` is a loop on fuel
-- over a step of its own. What a step ends with says how the loop goes on.
pub mod Monitoring
pub mod Runs
use youtube_stream_tracker.Prelude.{
  ℕ, zero, suc, ◌+◌, ◌-◌, ◌/◌, String, Bool, true, false, not, ◌&&◌, Option, none, some, str_eq,
  ltb, ◌==◌, if◌then◌else◌,
}
use youtube_stream_tracker.Model.{MonitorStatus, StreamStatus}
use youtube_stream_tracker.Worker.World.{
  State, LiveStatus, StreamInfo, stream_started, stream_ended, stream_delayed, title, reason, delay,
  EndReason, WorkerError, cleaned_monitor, waiting_ticker, Worker, M, ◌>>=◌, ◌>>◌, pure, ask,
  on_answer, emit, modify, gets,
}
use youtube_stream_tracker.Worker.Actions.{
  now, get_state, set_state, is_shutdown_requested, select_shutdown, send_webhook, report_status,
  transition_to_error, graceful_shutdown,
}
use youtube_stream_tracker.Worker.Segments.{
  is_error, is_completed, check_live_status, analyze_latest_segment, handle_segment_error,
  clear_segment_error,
}
use youtube_stream_tracker.Worker.Waiting.{Exit, finished, failed, out_of_fuel, waiting_mode}

unfoldable pub set_manifest_url : String → Worker → Worker
set_manifest_url url w = record w { current_manifest_url = url }

unfoldable pub refresh_manifest_url : String → Worker → Worker
refresh_manifest_url url w = record w {
  manifest_url_changed = if str_eq w.current_manifest_url url then w.manifest_url_changed else true;
  current_manifest_url = url;
}

unfoldable pub refresh_manifest : M (Unit {0})
refresh_manifest = do
  answer ← ask (λ e n. e.manifest_url n)
  on_answer answer (pure tt) (λ url. modify (refresh_manifest_url url))

-- The inner `for` with the `select`: as many refreshes as the ticker is found ready. It ends by the
-- closed `shutdownCh`, or by `default`, which a closed channel rules out.
unfoldable pub refresh_all : ℕ → M Bool
refresh_all zero = is_shutdown_requested
refresh_all (suc n) =
    let rest : M Bool = refresh_all n in
    do stopped ← select_shutdown; if stopped then pure true else do refresh_manifest; rest

-- The wait for the rest of the analysis interval.
unfoldable pub wait_rest : ℕ → M (Option Exit)
wait_rest start = do
  t ← now
  interval ← gets (λ w. w.cfg.analysis_interval)
  if ltb (t - start) interval
      then (do stopped ← select_shutdown; pure (if stopped then some finished else none))
      else pure none

-- After a failed analysis: whether the mode is over.
unfoldable pub after_failure : WorkerError → M (Option Exit)
after_failure err = do
  terminal ← handle_segment_error err
  if terminal
      then (do
        s ← get_state
        if is_error s
            then pure (some (failed WorkerError.webhook_delivery_failed))
            else do report_status MonitorStatus.completed none; pure (some finished))
      else pure none

unfoldable pub after_analysis : Option WorkerError → M (Option Exit)
after_analysis none = do clear_segment_error; pure none
after_analysis (some err) = after_failure err

unfoldable pub analysis_cycle : ℕ → M (Option Exit)
analysis_cycle start = do
  result ← analyze_latest_segment
  over ← after_analysis result
  on_answer over (wait_rest start) (λ x. pure (some x))

-- From the label `Analyze` on, after the refreshes.
unfoldable pub refresh_and_analyze : ℕ → M (Option Exit)
refresh_and_analyze start = do
  n ← ask (λ e k. e.refreshes k)
  stopped ← refresh_all n
  if stopped then pure (some finished) else do
    stopping ← is_shutdown_requested
    if stopping then pure (some finished) else analysis_cycle start

unfoldable pub monitoring_round : M (Option Exit)
monitoring_round = do
  s ← get_state
  if is_error s then pure (some (failed WorkerError.worker_in_error_state)) else do
    stopping ← is_shutdown_requested
    if stopping then pure (some finished) else do
      start ← now
      result ← check_live_status
      on_answer result
          (do
            s' ← get_state
            if is_completed s' then pure (some finished) else refresh_and_analyze start)
          (λ err. pure (some (failed err)))

unfoldable pub monitoring_loop : ℕ → M Exit
monitoring_loop zero = pure out_of_fuel
monitoring_loop (suc fuel) = do
  r ← monitoring_round
  elim r [ some x ↦ pure x | none ↦ monitoring_loop fuel ]

unfoldable pub monitoring_mode : ℕ → M Exit
monitoring_mode fuel = do
  report_status MonitorStatus.monitoring none
  answer ← ask (λ e n. e.manifest_url n)
  on_answer answer (pure (failed WorkerError.get_manifest_url)) (λ url. do
    modify (set_manifest_url url)
    t ← now
    modify λ w. record w { last_new_segment_time = some t }
    monitoring_loop fuel)

unfoldable pub after_mode : Exit → M (Option Exit)
after_mode finished = pure none
after_mode (failed err) = do transition_to_error; pure (some (failed err))
after_mode out_of_fuel = pure (some out_of_fuel)

-- `switch w.getState()`
unfoldable pub run_state : ℕ → State → M (Option Exit)
run_state fuel State.waiting = do r ← waiting_mode fuel; after_mode r
run_state fuel State.monitoring = do r ← monitoring_mode fuel; after_mode r
run_state fuel State.completed = pure (some finished)
run_state fuel State.error = pure (some (failed WorkerError.worker_in_error_state))

unfoldable pub run_round : ℕ → M (Option Exit)
run_round fuel = do
  stopping ← is_shutdown_requested
  if stopping
      then (do graceful_shutdown; pure (some finished))
      else do s ← get_state; run_state fuel s

unfoldable pub run_loop : ℕ → ℕ → M Exit
run_loop zero fuel = pure out_of_fuel
run_loop (suc rounds) fuel = do
  r ← run_round fuel
  elim r [ some x ↦ pure x | none ↦ run_loop rounds fuel ]

-- The deferred `cancelWork` and `CleanupMonitor`.
unfoldable pub release : M (Unit {0})
release = do modify λ w. record w { work_cancelled = true }; emit cleaned_monitor

-- `Run` behind the making of the temporary directory. The main loop makes at most three rounds.
unfoldable pub run_ready : ℕ → M Exit
run_ready fuel = do
  modify λ w. record w { has_cancel_work = true }
  r ← run_loop 3 fuel
  release
  pure r

unfoldable pub run : ℕ → M Exit
run fuel = do
  ready ← ask (λ e n. e.tmp_dir_ready n)
  if ready then run_ready fuel else pure (failed WorkerError.ensure_tmp_dir)

-- ===== src/Worker/Segments.antt =====
-- internal/worker/worker.go: one analysis of the latest segment, and what surrounds it.
use youtube_stream_tracker.Prelude.{
  ℕ, suc, ◌-◌, String, Bool, true, false, not, ◌&&◌, ◌||◌, Option, none, some, str_eq, ltb, leb,
  ◌==◌, if◌then◌else◌,
}
use youtube_stream_tracker.Manifest.Segment.{Segment}
use youtube_stream_tracker.Worker.World.{
  on_answer, State, stream_ended, stream_suspended, stream_resumed, alert_segment_error, no_data,
  reason, segment_error, EndReason, endlist_detected, segment_error_threshold,
  stream_no_longer_live, WorkerError, AnalysisResult, fetched, saved, analyzed, cleaned, Worker, M,
  ◌>>=◌, ◌>>◌, pure, ask, emit, modify, update, gets,
}
use youtube_stream_tracker.Worker.Actions.{
  now, get_state, set_state, is_shutdown_requested, send_webhook, report_status_update,
}
use youtube_stream_tracker.Worker.Detection.{process_black_detection, process_silence_detection}

abbrev pub suspension_alert_threshold : ℕ
suspension_alert_threshold = 10000

abbrev pub live_check_interval : ℕ
live_check_interval = 300000

abbrev pub segment_error_limit : ℕ
segment_error_limit = 60000

abbrev pub is_error : State → Bool
is_error State.error = true
is_error _ = false

abbrev pub is_completed : State → Bool
is_completed State.completed = true
is_completed _ = false

-- `time.Since(start) >= limit`; the zero time is longer ago than any limit.
unfoldable pub elapsed_at_least : ℕ → Option ℕ → ℕ → Bool
elapsed_at_least limit none t = true
elapsed_at_least limit (some start) t = leb limit (t - start)

unfoldable pub suspension_update : ℕ → Worker → Worker × Bool
suspension_update t w =
    if elapsed_at_least suspension_alert_threshold w.last_new_segment_time t
      && not w.suspended_alert_sent
    then (record w { suspended_alert_sent = true }, true)
    else (w, false)

unfoldable pub check_suspension : M (Unit {0})
check_suspension = do
  t ← now
  should_send ← update (suspension_update t)
  if should_send then send_webhook stream_suspended no_data else pure tt

unfoldable pub should_check_live : M Bool
should_check_live = do
  t ← now
  due ← gets (λ w. elapsed_at_least live_check_interval w.last_live_check t)
  if due
      then (do t' ← now; modify (λ w. record w { last_live_check = some t' }); pure true)
      else pure false

-- `if w.getState() == StateError { return webhook delivery failed }`, else nil.
unfoldable pub webhook_outcome : M (Option WorkerError)
webhook_outcome = do
  s ← get_state
  pure (if is_error s then some WorkerError.webhook_delivery_failed else none)

-- The end of the stream: the event, and the state unless its delivery failed.
unfoldable pub end_stream : EndReason → M (Option WorkerError)
end_stream r = do
  send_webhook stream_ended (reason r)
  s ← get_state
  if is_error s
      then pure (some WorkerError.webhook_delivery_failed)
      else do set_state State.completed; pure none

unfoldable pub check_live_status : M (Option WorkerError)
check_live_status = do
  due ← should_check_live
  if due
      then (do
        answer ← ask (λ e n. e.stream_live n)
        on_answer answer (pure none)
            (λ (is_live, info). if is_live then pure none else end_stream stream_no_longer_live))
      else pure none

unfoldable pub note_segment : Segment → Worker → Worker × Bool
note_segment s w =
    (record w { last_segment_info = some s; manifest_url_changed = false }, w.manifest_url_changed)

-- An older segment, or the last one again.
unfoldable pub already_processed : Segment → Worker → Bool
already_processed s w =
    ltb s.sequence w.last_segment_sequence
    || (s.sequence == w.last_segment_sequence && str_eq s.url w.last_segment_url)

-- The state after an analysed segment, and whether stream.resumed is to be sent.
unfoldable pub accept_segment : ℕ → Segment → Bool → Worker → Worker × Bool
accept_segment t s is_rebaseline w = (
  record w {
    last_segment_sequence = s.sequence;
    last_segment_url = s.url;
    total_segments = suc w.total_segments;
    last_new_segment_time = if is_rebaseline then w.last_new_segment_time else some t;
    suspended_alert_sent = if is_rebaseline then w.suspended_alert_sent else false;
  },
  not is_rebaseline && w.suspended_alert_sent,
)

unfoldable pub finish_segment : Segment → AnalysisResult → M (Option WorkerError)
finish_segment s result = do
  process_black_detection result.fully_black s.duration
  process_silence_detection result.fully_silent s.duration
  report_status_update
  pure none

unfoldable pub analyze_saved : Segment → Bool → String → M (Option WorkerError)
analyze_saved s is_rebaseline path = do
  answer ← ask (λ e n. e.analysis n)
  emit (analyzed path)
  on_answer answer (pure (some WorkerError.analyze_segment)) (λ result. do
    t ← now
    was_suspended ← update (accept_segment t s is_rebaseline)
    if was_suspended
        then (do
          send_webhook stream_resumed no_data
          st ← get_state
          if is_error st
              then pure (some WorkerError.webhook_delivery_failed)
              else finish_segment s result)
        else finish_segment s result)

-- The removal of the file is tried however the analysis ends, and what it comes to changes nothing.
unfoldable pub process_segment : Segment → Bool → M (Option WorkerError)
process_segment s is_rebaseline = do
  segment_data ← ask (λ e n. e.segment_data n)
  emit (fetched s.url)
  on_answer segment_data (pure (some WorkerError.fetch_segment)) (λ bytes. do
    stopping ← is_shutdown_requested
    if stopping then pure none else do
      answer ← ask (λ e n. e.segment_path n)
      on_answer answer (pure (some WorkerError.save_segment)) (λ path. do
        emit (saved path)
        r ← analyze_saved s is_rebaseline path
        removed ← ask (λ e n. e.segment_removed n)
        emit (cleaned path removed)
        pure r))

unfoldable pub take_segment : M (Option WorkerError)
take_segment = do
  answer ← ask (λ e n. e.latest_segment n)
  on_answer answer (pure (some WorkerError.get_latest_segment)) (λ s. do
    is_rebaseline ← update (note_segment s)
    known ← gets (already_processed s)
    if known then (do check_suspension; webhook_outcome) else process_segment s is_rebaseline)

unfoldable pub analyze_latest_segment : M (Option WorkerError)
analyze_latest_segment = do
  stopping ← is_shutdown_requested
  if stopping then pure none else do
    answer ← ask (λ e n. e.end_list n)
    on_answer answer (pure (some WorkerError.check_endlist))
        (λ is_end_list. if is_end_list then end_stream endlist_detected else take_segment)

unfoldable pub start_segment_error : ℕ → Worker → Worker
start_segment_error t w = elim w.segment_error_start [
  | none ↦ record w { segment_error_start = some t; segment_error_sent = false }
  | some start ↦ w
]

unfoldable pub segment_error_due : ℕ → Worker → Worker × Bool
segment_error_due t w =
    if elapsed_at_least segment_error_limit w.segment_error_start t && not w.segment_error_sent
    then (record w { segment_error_sent = true }, true)
    else (w, false)

-- Past the limit the stream is asked for once.
unfoldable pub confirm_segment_error : WorkerError → M Bool
confirm_segment_error err = do
  answer ← ask (λ e n. e.stream_live n)
  on_answer answer (pure false) (λ (is_live, info).
      if is_live
      then (do send_webhook alert_segment_error (segment_error err 60); pure false)
      else do end_stream segment_error_threshold; pure true)

unfoldable pub count_segment_error : WorkerError → M Bool
count_segment_error err = do
  t ← now
  modify (start_segment_error t)
  t' ← now
  due ← update (segment_error_due t')
  if due then confirm_segment_error err else pure false

-- Whether the monitoring is over.
unfoldable pub handle_segment_error : WorkerError → M Bool
handle_segment_error err = do
  s ← get_state
  if is_completed s then pure true else count_segment_error err

unfoldable pub clear_segment_error : M (Unit {0})
clear_segment_error =
    modify λ w. record w { segment_error_start = none; segment_error_sent = false }

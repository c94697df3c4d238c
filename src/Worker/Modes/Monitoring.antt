-- ===== src/Worker/Modes/Monitoring.antt =====
-- internal/worker/worker.go: in which state the monitoring mode and `Run` leave the worker.
use youtube_stream_tracker.Worker.Frame.{
  Gives->>, Gives-get_state, Gives-pure, Gives-on_answer, Gives-if, Gives-bind, Gives,
}
use youtube_stream_tracker.Worker.Waiting.{out_of_fuel, finished, failed, Exit}
use youtube_stream_tracker.Worker.Modes.{
  refresh_manifest, monitoring_loop, refresh_and_analyze, monitoring_round, refresh_all,
  after_failure, wait_rest, analysis_cycle, after_analysis,
}
use youtube_stream_tracker.Worker.Segments.{
  should_check_live, analyze_latest_segment, confirm_segment_error, count_segment_error, end_stream,
  check_live_status, handle_segment_error,
}
use youtube_stream_tracker.Prelude.{
  zero, suc, ℕ, none, false, true, some, is_some, Bool, Option, arith, if◌then◌else◌, ◌⊎◌, ◌≡◌,
}
use youtube_stream_tracker.Worker.Actions.{
  is_shutdown_requested, now, select_shutdown, report_status, get_state, set_state,
}
use youtube_stream_tracker.Worker.World.{
  advance, ask, StreamInfo, emit, State, World, Env, WorkerError, EndReason, ◌>>=◌, on_answer, pure,
  gets, ◌>>◌, modify,
}

-- How the monitoring loop may end, once it has a manifest.
abbrev pub ExitOk : Exit → World → Type 0
ExitOk finished w = (w.worker.state ≡ State.completed) ⊎ (w.worker.shutdown_requested ≡ true)
ExitOk (failed err) w = w.worker.state ≡ State.error
ExitOk out_of_fuel w = Unit

abbrev pub MaybeExitOk : Option Exit → World → Type 0
MaybeExitOk none w = Unit
MaybeExitOk (some finished) w = ExitOk finished w
MaybeExitOk (some (failed err)) w = ExitOk (failed err) w
MaybeExitOk (some out_of_fuel) w = ⊥

abbrev IsOver : State → Type 0
IsOver s = (s ≡ State.completed) ⊎ (s ≡ State.error)

end_stream_ok :
    (r : EndReason) (e : Env) (w : World)
    → (end_stream r e w).1.worker.state
      ≡ (if is_some (end_stream r e w).0 then State.error else State.completed)
unfolding end_stream get_state gets set_state modify pure ◌>>=◌ ◌>>◌
end_stream_ok r e w = ground arith

-- An error is returned only where the worker has failed.
abbrev FailedIfError : Option WorkerError → World → Type 0
FailedIfError none w = Unit
FailedIfError (some err) w = w.worker.state ≡ State.error

end_stream-Gives : (r : EndReason) → Gives FailedIfError (end_stream r)
end_stream-Gives r = record { at = λ e w. ground (arith, end_stream_ok r e w) }

live_answer-Gives :
    (answer : Option (Bool × Option StreamInfo))
    → Gives FailedIfError (
        on_answer answer (pure none) (λ (is_live, info).
          if is_live then pure none else end_stream EndReason.stream_no_longer_live))
live_answer-Gives answer =
    Gives-on_answer answer (Gives-pure none (λ w. tt))
      λ p. Gives-if p.0 (Gives-pure none (λ w. tt)) (end_stream-Gives _)

check_live_status-Gives : Gives FailedIfError check_live_status
unfolding check_live_status
check_live_status-Gives =
    Gives-bind should_check_live
      λ due. Gives-if due (Gives-bind _ live_answer-Gives) (Gives-pure none (λ w. tt))

abbrev OverIf : Bool → World → Type 0
OverIf true w = IsOver w.worker.state
OverIf false w = Unit

end_stream_over : (r : EndReason) → Gives OverIf (do end_stream r; pure true)
unfolding ◌>>◌ pure
end_stream_over r = record { at = λ e w. ground (arith, end_stream_ok r e w) }

confirm_segment_error-Gives : (err : WorkerError) → Gives OverIf (confirm_segment_error err)
unfolding confirm_segment_error
confirm_segment_error-Gives err = Gives-bind _ λ answer.
    Gives-on_answer answer (Gives-pure false (λ w. tt))
      λ p. Gives-if p.0 (Gives->> _ (Gives-pure false (λ w. tt))) (end_stream_over _)

count_segment_error-Gives : (err : WorkerError) → Gives OverIf (count_segment_error err)
unfolding count_segment_error
count_segment_error-Gives err = Gives-bind _ λ t. Gives->> _ (
    Gives-bind _ λ t'.
      Gives-bind _
        λ due. Gives-if due (confirm_segment_error-Gives err) (Gives-pure false (λ w. tt)))

-- `handleSegmentError` ends the mode only where the worker is completed or has failed.
handle_segment_error-Gives : (err : WorkerError) → Gives OverIf (handle_segment_error err)
unfolding handle_segment_error pure
handle_segment_error-Gives err =
    Gives-get_state _ λ s e w h. ground (arith, (count_segment_error-Gives err).at e w)

-- How a round of the monitoring mode may end.
after_failure-Gives : (err : WorkerError) → Gives MaybeExitOk (after_failure err)
unfolding after_failure get_state gets report_status emit pure ◌>>=◌ ◌>>◌
after_failure-Gives err = record {
  at = λ e w. ground (arith, (handle_segment_error-Gives err).at e w);
}

after_analysis-Gives : (r : Option WorkerError) → Gives MaybeExitOk (after_analysis r)
unfolding after_analysis
after_analysis-Gives none = Gives->> _ (Gives-pure none (λ w. tt))
after_analysis-Gives (some err) = after_failure-Gives err

select_shutdown-exit :
    Gives MaybeExitOk (do stopped ← select_shutdown; pure (if stopped then some finished else none))
unfolding select_shutdown pure ◌>>=◌
select_shutdown-exit = record { at = λ e w. ground arith }

wait_rest-Gives : (start : ℕ) → Gives MaybeExitOk (wait_rest start)
unfolding wait_rest
wait_rest-Gives start =
    Gives-bind _
      λ t. Gives-bind _ λ interval. Gives-if _ select_shutdown-exit (Gives-pure none (λ w. tt))

analysis_cycle-Gives : (start : ℕ) → Gives MaybeExitOk (analysis_cycle start)
unfolding analysis_cycle on_answer pure ◌>>=◌
analysis_cycle-Gives start = record {
  at = λ e w.
      let (r, w1) = analyze_latest_segment e w in
      let (x, w2) = after_analysis r e w1 in
      ground (arith, (after_analysis-Gives r).at e w1, (wait_rest-Gives start).at e w2);
}

abbrev StoppedIf : Bool → World → Type 0
StoppedIf b w = b ≡ true → w.worker.shutdown_requested ≡ true

refresh_all-Gives : (n : ℕ) → Gives StoppedIf (refresh_all n)
unfolding refresh_all is_shutdown_requested select_shutdown pure ◌>>=◌ ◌>>◌
refresh_all-Gives zero = record { at = λ e w h. h }
refresh_all-Gives (suc n) = record {
  at = λ e w. ground (arith, (refresh_all-Gives n).at e (refresh_manifest e (advance e w)).1);
}

refresh_and_analyze-Gives : (start : ℕ) → Gives MaybeExitOk (refresh_and_analyze start)
unfolding refresh_and_analyze ask is_shutdown_requested pure ◌>>=◌
refresh_and_analyze-Gives start = record {
  at = λ e w.
      let n : ℕ = e.refreshes w.tick in
      let w1 : World = (refresh_all n e (advance e w)).1 in
      ground (
        arith,
        (refresh_all-Gives n).at e (advance e w),
        (analysis_cycle-Gives start).at e (advance e w1),
      );
}

pub monitoring_round-Gives : Gives MaybeExitOk monitoring_round
unfolding monitoring_round get_state gets is_shutdown_requested now ask on_answer pure ◌>>=◌
monitoring_round-Gives = record {
  at = λ e w.
      let w1 : World = advance e (advance e w) in
      ground (
        arith,
        check_live_status-Gives.at e w1,
        (refresh_and_analyze-Gives (e.clock (advance e w).tick)).at e (check_live_status e w1).1,
      );
}

pub monitoring_loop-Gives : (fuel : ℕ) → Gives ExitOk (monitoring_loop fuel)
unfolding monitoring_loop pure ◌>>=◌
monitoring_loop-Gives zero = record { at = λ e w. tt }
monitoring_loop-Gives (suc fuel) = record {
  at = λ e w.
      let w1 : World = (monitoring_round e w).1 in
      ground (arith, monitoring_round-Gives.at e w, (monitoring_loop-Gives fuel).at e w1);
}

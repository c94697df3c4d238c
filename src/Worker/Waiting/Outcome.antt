-- ===== src/Worker/Waiting/Outcome.antt =====
-- internal/worker/worker.go: in which state the modes and `Run` leave the worker.
use youtube_stream_tracker.Worker.Delivery.{
  advance-MayFail, send_webhook-MayFail, fail_rules, MayFail,
}
use youtube_stream_tracker.Worker.Frame.{Keeps}
use youtube_stream_tracker.Worker.Actions.{
  get_state, is_shutdown_requested, report_status, select_shutdown, now, set_state,
}
use youtube_stream_tracker.Prelude.{
  zero, suc, inl, false, none, true, some, Bool, ℕ, Option, arith, ◌⊎◌, ◌≡◌, if◌then◌else◌,
}
use youtube_stream_tracker.Worker.World.{
  M, advance, StreamInfo, World, Env, State, LiveStatus, ◌>>◌, emit, pure, ◌>>=◌, gets, ask,
  on_answer, modify,
}
use youtube_stream_tracker.Worker.Waiting.{
  Exit, waiting_mode, waiting_loop, out_of_fuel, finished, failed, again, leave, Round,
  wait_for_tick, next_interval, waiting_round, check_stream, follow_info, already_ended,
  not_yet_live, begin_monitoring, follow_status, check_delay,
}

-- How a round of the waiting mode may end.
abbrev pub RoundOk : Round → World → Type 0
RoundOk (leave finished) w =
    (w.worker.state ≡ State.monitoring)
    ⊎ ((w.worker.state ≡ State.completed) ⊎ (w.worker.shutdown_requested ≡ true))
RoundOk (leave (failed err)) w = w.worker.state ≡ State.error
RoundOk (leave out_of_fuel) w = ⊥
RoundOk (again interval alert_sent) w = MayFail State.waiting w

begin_monitoring-RoundOk :
    (info : Option StreamInfo) (e : Env) (w : World)
    → RoundOk (begin_monitoring info e w).0 (begin_monitoring info e w).1
unfolding begin_monitoring modify get_state gets report_status emit set_state pure ◌>>=◌ ◌>>◌
begin_monitoring-RoundOk info e w = ground arith

already_ended-RoundOk :
    (s : LiveStatus) (e : Env) (w : World) → RoundOk (already_ended s e w).0 (already_ended s e w).1
unfolding already_ended modify get_state gets report_status emit set_state pure ◌>>=◌ ◌>>◌
already_ended-RoundOk s e w = ground arith

follow_status-RoundOk :
    (interval : ℕ) (a : Bool) (s : LiveStatus) (e : Env) (w : World)
    → MayFail State.waiting w
    → RoundOk (follow_status interval a s e w).0 (follow_status interval a s e w).1
unfolding follow_status modify pure ◌>>◌
follow_status-RoundOk interval a LiveStatus.is_upcoming e w h = record {
  same_or_error = h.same_or_error;
}
follow_status-RoundOk interval a LiveStatus.was_live e w h = already_ended-RoundOk _ e w
follow_status-RoundOk interval a LiveStatus.not_live e w h = already_ended-RoundOk _ e w
follow_status-RoundOk interval a LiveStatus.is_live e w h = h
follow_status-RoundOk interval a (LiveStatus.other s) e w h = h

follow_info-RoundOk :
    (interval : ℕ) (a : Bool) (info : Option StreamInfo) (e : Env) (w : World)
    → MayFail State.waiting w
    → RoundOk (follow_info interval a info e w).0 (follow_info interval a info e w).1
unfolding follow_info pure
follow_info-RoundOk interval a none e w h = h
follow_info-RoundOk interval a (some info) e w h =
    follow_status-RoundOk interval a info.live_status e w h

next_interval-MayFail : {s : State} (interval : ℕ) → Keeps (MayFail s) (next_interval interval)
unfolding next_interval now
next_interval-MayFail interval = search fail_rules depth 12

check_delay-MayFail : {s : State} (a : Bool) → Keeps (MayFail s) (check_delay a)
unfolding check_delay now
check_delay-MayFail a = search (fail_rules, send_webhook-MayFail) depth 12

not_yet_live-RoundOk :
    (interval : ℕ) (a : Bool) (info : Option StreamInfo) (e : Env) (w : World)
    → MayFail State.waiting w
    → RoundOk (not_yet_live interval a info e w).0 (not_yet_live interval a info e w).1
unfolding not_yet_live ◌>>=◌
not_yet_live-RoundOk interval a info e w h =
    let (i, w1) = next_interval interval e w in
    let (a', w2) = check_delay a e w1 in
    follow_info-RoundOk i a' info e w2
      ((check_delay-MayFail a).at e w1 ((next_interval-MayFail interval).at e w h))

check_answer-RoundOk :
    (interval : ℕ) (a : Bool) (answer : Option (Bool × Option StreamInfo)) (e : Env) (w : World)
    → MayFail State.waiting w
    → let m = on_answer answer (pure (again interval a)) (λ (is_live, info).
      if is_live then begin_monitoring info else not_yet_live interval a info) in
      RoundOk (m e w).0 (m e w).1
unfolding on_answer pure
check_answer-RoundOk interval a none e w h = h
check_answer-RoundOk interval a (some (true, info)) e w h = begin_monitoring-RoundOk info e w
check_answer-RoundOk interval a (some (false, info)) e w h =
    not_yet_live-RoundOk interval a info e w h

check_stream-RoundOk :
    (interval : ℕ) (a : Bool) (e : Env) (w : World)
    → MayFail State.waiting w
    → RoundOk (check_stream interval a e w).0 (check_stream interval a e w).1
unfolding check_stream ask ◌>>=◌
check_stream-RoundOk interval a e w h =
    check_answer-RoundOk interval a (e.stream_live w.tick) e (advance e w) (advance-MayFail e w h)

pub waiting_round-RoundOk :
    (interval : ℕ) (a first : Bool) (e : Env) (w : World)
    → MayFail State.waiting w
    → RoundOk (waiting_round interval a first e w).0 (waiting_round interval a first e w).1
unfolding waiting_round get_state gets is_shutdown_requested wait_for_tick select_shutdown pure
    ◌>>=◌
waiting_round-RoundOk interval a true e w h =
    ground (arith, check_stream-RoundOk interval a e (advance e w), advance-MayFail e w h)
waiting_round-RoundOk interval a false e w h = ground (
  arith,
  check_stream-RoundOk interval a e (advance e (advance e w)),
  advance-MayFail e (advance e w) (advance-MayFail e w h),
)

-- How the waiting mode may end.
abbrev pub WaitOk : Exit → World → Type 0
WaitOk out_of_fuel w = Unit
WaitOk x w = RoundOk (leave x) w

waiting_loop-WaitOk :
    (fuel interval : ℕ) (a first : Bool) (e : Env) (w : World)
    → MayFail State.waiting w
    → WaitOk (waiting_loop fuel interval a first e w).0 (waiting_loop fuel interval a first e w).1
unfolding waiting_loop pure ◌>>=◌
waiting_loop-WaitOk zero interval a first e w h = tt
waiting_loop-WaitOk (suc fuel) interval a first e w h =
    follow (waiting_round interval a first e w).0 (waiting_round interval a first e w).1
      (waiting_round-RoundOk interval a first e w h)
      (λ i a' w' h'. waiting_loop-WaitOk fuel i a' false e w' h')
  where
    follow :
        (r : Round) (w' : World)
        → RoundOk r w'
        → ((i : ℕ) (a' : Bool) (v : World)
            → MayFail State.waiting v
            → WaitOk (waiting_loop fuel i a' false e v).0 (waiting_loop fuel i a' false e v).1)
        → let m : M Exit = elim r [
          | leave x ↦ pure x
          | again i a' ↦ waiting_loop fuel i a' false
        ] in
          WaitOk (m e w').0 (m e w').1
    follow (leave finished) w' h rest = h
    follow (leave (failed err)) w' h rest = h
    follow (leave out_of_fuel) w' h rest = tt
    follow (again i a') w' h rest = rest i a' w' h

pub waiting_mode-WaitOk :
    (fuel : ℕ) (e : Env) (w : World)
    → w.worker.state ≡ State.waiting
    → WaitOk (waiting_mode fuel e w).0 (waiting_mode fuel e w).1
unfolding waiting_mode report_status gets emit ◌>>◌ ◌>>=◌
waiting_mode-WaitOk fuel e w h =
    waiting_loop-WaitOk fuel _ _ _ e _ (record { same_or_error = inl h })

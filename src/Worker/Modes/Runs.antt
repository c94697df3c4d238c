-- ===== src/Worker/Modes/Runs.antt =====
-- internal/worker/worker.go: what `Run` returns, and in which state it leaves the worker.
use youtube_stream_tracker.Model.{MonitorStatus}
use youtube_stream_tracker.Worker.Modes.Monitoring.{monitoring_loop-Gives, ExitOk}
use youtube_stream_tracker.Worker.Waiting.Outcome.{waiting_mode-WaitOk, WaitOk}
use youtube_stream_tracker.Worker.Frame.{
  advance-shutdown, advance-state, Gives-pure, Gives-on_answer, Gives-bind, Gives->>, Gives,
}
use youtube_stream_tracker.Worker.Waiting.{out_of_fuel, failed, finished, Exit}
use youtube_stream_tracker.Worker.Modes.{
  run_ready, run, release, run_state, run_loop, run_round, monitoring_mode, after_mode,
}
use youtube_stream_tracker.Worker.World.{
  request_shutdown, cleaned_monitor, M, ask, advance, ◌>>=◌, gets, reported, Effect, State, Env,
  World, pure, emit, modify, ◌>>◌,
}
use youtube_stream_tracker.Worker.Actions.{
  get_state, graceful_shutdown, is_shutdown_requested, set_state, report_status,
  transition_to_error,
}
use youtube_stream_tracker.Prelude.{
  false, ap, Bool, if◌then◌else◌, inr, zero, inl, suc, arith, List, true, none, some, ℕ, Option,
  refl, ◌≡◌, ◌∷◌, ◌≢◌, ◌⊎◌,
}

-- How `Run` may end: completed, or stopped on request and reported so, or failed and reported so.
abbrev pub RunOk : Exit → World → Type 0
RunOk finished w =
    (w.worker.state ≡ State.completed)
    ⊎ ((w.worker.shutdown_requested ≡ true)
        × ((xs : List Effect) × (w.trace ≡ reported MonitorStatus.stopped none ∷ xs)))
RunOk (failed err) w =
    (w.worker.state ≡ State.error)
    × ((xs : List Effect) × (w.trace ≡ reported MonitorStatus.error none ∷ xs))
RunOk out_of_fuel w = Unit

-- What holds when the main loop goes round.
abbrev pub IsReady : World → Type 0
IsReady w = (w.worker.state ≢ State.error) ⊎ (w.worker.shutdown_requested ≡ true)

abbrev NextOk : Option Exit → World → Type 0
NextOk none w = IsReady w
NextOk (some x) w = RunOk x w

abbrev ModeOk : Exit → World → Type 0
ModeOk finished w = IsReady w
ModeOk (failed err) w = Unit
ModeOk out_of_fuel w = Unit

after_mode-NextOk :
    (x : Exit) (e : Env) (w : World) → ModeOk x w → NextOk (after_mode x e w).0 (after_mode x e w).1
unfolding after_mode transition_to_error set_state modify report_status emit pure ◌>>◌
after_mode-NextOk finished e w h = h
after_mode-NextOk (failed err) e w h = (refl, (w.trace, refl))
after_mode-NextOk out_of_fuel e w h = tt

WaitOk-ModeOk : (x : Exit) (w : World) → WaitOk x w → ModeOk x w
WaitOk-ModeOk finished w h = ground arith
WaitOk-ModeOk (failed err) w h = tt
WaitOk-ModeOk out_of_fuel w h = tt

ExitOk-ModeOk : (x : Exit) (w : World) → ExitOk x w → ModeOk x w
ExitOk-ModeOk finished w h = ground arith
ExitOk-ModeOk (failed err) w h = tt
ExitOk-ModeOk out_of_fuel w h = tt

monitoring_mode-Gives : (fuel : ℕ) → Gives ModeOk (monitoring_mode fuel)
unfolding monitoring_mode
monitoring_mode-Gives fuel = Gives->> _ (
    Gives-bind _ λ answer. Gives-on_answer answer (Gives-pure _ (λ w. tt)) λ url. Gives->> _ (
      Gives-bind _ λ t.
        Gives->> _
          (record { at = λ e w. ExitOk-ModeOk _ _ ((monitoring_loop-Gives fuel).at e w) })))

run_state-NextOk :
    (fuel : ℕ) (s : State) (e : Env) (w : World)
    → w.worker.state ≡ s
    → s ≢ State.error
    → NextOk (run_state fuel s e w).0 (run_state fuel s e w).1
unfolding run_state pure ◌>>=◌
run_state-NextOk fuel State.waiting e w h k =
    after_mode-NextOk _ e _ (WaitOk-ModeOk _ _ (waiting_mode-WaitOk fuel e w h))
run_state-NextOk fuel State.monitoring e w h k =
    after_mode-NextOk _ e _ ((monitoring_mode-Gives fuel).at e w)
run_state-NextOk fuel State.completed e w h k = inl h
run_state-NextOk fuel State.error e w h k = absurd (k refl)

IsReady-advance : (e : Env) (w : World) → IsReady w → IsReady (advance e w)
IsReady-advance e w (inl h) = inl (rw (advance-state e w) h)
IsReady-advance e w (inr h) = inr (advance-shutdown e w h)

-- The branch of the main loop, on the flag as it was read.
abbrev pub branch : ℕ → Bool → M (Option Exit)
branch fuel stopping =
    if stopping
    then (do graceful_shutdown; pure (some finished))
    else do s ← get_state; run_state fuel s

branch-NextOk :
    (fuel : ℕ) (b : Bool) (e : Env) (w : World)
    → w.worker.shutdown_requested ≡ b
    → IsReady w
    → NextOk (branch fuel b e w).0 (branch fuel b e w).1
unfolding graceful_shutdown report_status emit get_state gets pure ◌>>=◌ ◌>>◌
branch-NextOk fuel true e w f h = inr (f, (w.trace, refl))
branch-NextOk fuel false e w f (inl h) = run_state-NextOk fuel _ e w refl h
branch-NextOk fuel false e w f (inr h) = cc

run_round-NextOk :
    (fuel : ℕ) (e : Env) (w : World)
    → IsReady w
    → NextOk (run_round fuel e w).0 (run_round fuel e w).1
unfolding run_round is_shutdown_requested ◌>>=◌
run_round-NextOk fuel e w h = branch-NextOk fuel _ e (advance e w) refl (IsReady-advance e w h)

-- What the loop does with the end of a round.
abbrev pub go_on : ℕ → ℕ → Option Exit → M Exit
go_on rounds fuel r = elim r [ some x ↦ pure x | none ↦ run_loop rounds fuel ]

go_on-RunOk :
    (rounds fuel : ℕ) (r : Option Exit) (e : Env) (w : World)
    → ((v : World) → IsReady v → RunOk (run_loop rounds fuel e v).0 (run_loop rounds fuel e v).1)
    → NextOk r w
    → RunOk (go_on rounds fuel r e w).0 (go_on rounds fuel r e w).1
unfolding pure
go_on-RunOk rounds fuel none e w rest h = rest w h
go_on-RunOk rounds fuel (some x) e w rest h = h

run_loop-RunOk :
    (rounds fuel : ℕ) (e : Env) (w : World)
    → IsReady w
    → RunOk (run_loop rounds fuel e w).0 (run_loop rounds fuel e w).1
unfolding run_loop pure ◌>>=◌
run_loop-RunOk zero fuel e w h = tt
run_loop-RunOk (suc rounds) fuel e w h =
    let (r, w1) = run_round fuel e w in
    go_on-RunOk rounds fuel r e w1 (run_loop-RunOk rounds fuel e) (run_round-NextOk fuel e w h)

-- How `Run` may end, the temporary files removed behind all else.
abbrev pub RunEnds : Exit → World → Type 0
RunEnds finished w =
    ((w.worker.state ≡ State.completed) × ((xs : List Effect) × (w.trace ≡ cleaned_monitor ∷ xs)))
    ⊎ ((w.worker.shutdown_requested ≡ true)
        × ((xs : List Effect) × (w.trace
              ≡ cleaned_monitor ∷ reported MonitorStatus.stopped none ∷ xs)))
RunEnds (failed err) w =
    (w.worker.state ≡ State.error)
    × ((xs : List Effect) × (w.trace ≡ cleaned_monitor ∷ reported MonitorStatus.error none ∷ xs))
RunEnds out_of_fuel w = Unit

release-RunEnds : (x : Exit) (e : Env) (w : World) → RunOk x w → RunEnds x (release e w).1
unfolding release modify emit ◌>>◌
release-RunEnds finished e w (inl h) = inl (h, (w.trace, refl))
release-RunEnds finished e w (inr (f, (xs, h))) = inr (f, (xs, ap (◌∷◌ cleaned_monitor) h))
release-RunEnds (failed err) e w (s, (xs, h)) = (s, (xs, ap (◌∷◌ cleaned_monitor) h))
release-RunEnds out_of_fuel e w h = tt

-- Where `Run` gets its temporary directory and the worker has not failed before: it returns nil only
-- with the worker completed, or after a requested shutdown whose last report is "stopped"; it
-- returns an error only with the worker in the error state and "error" as the last report. In each of
-- these cases the call of CleanupMonitor is the last thing done. Nothing is said of a run that is still
-- going on when its fuel is used.
pub run-RunEnds :
    (fuel : ℕ) (e : Env) (w : World)
    → e.tmp_dir_ready w.tick ≡ true
    → w.worker.state ≢ State.error
    → RunEnds (run fuel e w).0 (run fuel e w).1
unfolding run run_ready ask modify pure ◌>>=◌ ◌>>◌
run-RunEnds fuel e w ready h =
    rw ready (release-RunEnds _ e _ (run_loop-RunOk 3 fuel e _ (inl (rw (advance-state e w) h))))

-- A worker that was asked to stop before `Run` returns nil, with every amount of fuel and whatever
-- the outside does, once it has its temporary directory: it does no work, but reports "stopped" and then
-- removes its temporary files.
pub run-stopped :
    (fuel : ℕ) (e : Env) (w : World)
    → e.tmp_dir_ready w.tick ≡ true
    → w.worker.shutdown_requested ≡ true
    → ((run fuel e w).0 ≡ finished)
      × ((run fuel e w).1.trace ≡ cleaned_monitor ∷ reported MonitorStatus.stopped none ∷ w.trace)
unfolding run run_ready run_loop run_round release ask modify emit gets pure ◌>>=◌ ◌>>◌
    is_shutdown_requested graceful_shutdown report_status advance request_shutdown
run-stopped fuel e w ready h = ground arith

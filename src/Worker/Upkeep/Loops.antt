-- ===== src/Worker/Upkeep/Loops.antt =====
-- internal/worker/worker.go: a property that the plain steps keep is kept by the modes and by `Run`.
use youtube_stream_tracker.Worker.Upkeep.Rounds.{
  Preserves-wait_rest, Preserves-after_mode, Preserves-refresh_all, Preserves-after_analysis,
  Preserves-waiting_mode,
}
use youtube_stream_tracker.Manifest.Segment.{Segment}
use youtube_stream_tracker.Worker.Segments.{
  is_completed, check_live_status, process_segment, check_suspension,
}
use youtube_stream_tracker.Worker.Upkeep.{
  Preserves-gets, Preserves-report_status, Preserves-on_answer, Preserves-ask, Preserves-modify,
  Preserves-if, Preserves-bind, Preserves-pure, Preserves->>, Preserves-is_shutdown_requested,
  Preserves, Upkeep,
}
use youtube_stream_tracker.Worker.World.{
  on_answer, ◌>>=◌, cleaned_monitor, State, emit, pure, M, World, Env,
}
use youtube_stream_tracker.Worker.Actions.{now, get_state, graceful_shutdown}
use youtube_stream_tracker.Worker.Modes.{
  analysis_cycle, run_state, run_loop, monitoring_round, release, refresh_and_analyze, run,
  run_ready, set_manifest_url, run_round, monitoring_loop, monitoring_mode,
}
use youtube_stream_tracker.Prelude.{if◌then◌else◌, zero, none, suc, some, ℕ, Bool, Option, refl}
use youtube_stream_tracker.Worker.Upkeep.Methods.{
  Preserves-check_live_status, Preserves-analyze_latest_segment, method_rules,
}
use youtube_stream_tracker.Worker.Waiting.{failed, finished, Exit}

-- What a round does behind the test of the flag.
abbrev pub observed : M (Option Exit)
observed = do
  start ← now
  result ← check_live_status
  on_answer result
      (do
        s' ← get_state
        if is_completed s' then pure (some finished) else refresh_and_analyze start)
      (λ err. pure (some (failed err)))

module _ {P : Env → World → Type 0} (u : Upkeep P) where
  module _ (suspension : Preserves P check_suspension)
      (segment : (s : Segment) (b : Bool) → Preserves P (process_segment s b)) where
    Preserves-analysis_cycle : (n : ℕ) → Preserves P (analysis_cycle n)
    unfolding analysis_cycle
    Preserves-analysis_cycle n =
        Preserves-bind (Preserves-analyze_latest_segment u suspension segment) λ r.
          Preserves-bind (Preserves-after_analysis u r)
            λ over. Preserves-on_answer over (Preserves-wait_rest u n) (λ x. Preserves-pure _)

    Preserves-refresh_and_analyze : (n : ℕ) → Preserves P (refresh_and_analyze n)
    unfolding refresh_and_analyze
    Preserves-refresh_and_analyze n =
        search (method_rules, Preserves-refresh_all, Preserves-analysis_cycle) depth 12

    pub Preserves-observed : Preserves P observed
    unfolding now get_state
    Preserves-observed = Preserves-bind (Preserves-ask u _) λ t.
        Preserves-bind (Preserves-check_live_status u) λ r.
          Preserves-on_answer r
            (Preserves-bind (Preserves-gets _)
              λ s. Preserves-if _ (Preserves-pure _) (Preserves-refresh_and_analyze t))
            (λ err. Preserves-pure _)

    Preserves-monitoring_round : Preserves P monitoring_round
    unfolding monitoring_round get_state
    Preserves-monitoring_round = search (method_rules, Preserves-observed) depth 10

    monitoring_next :
        (fuel : ℕ)
        → Preserves P (monitoring_loop fuel)
        → (r : Option Exit)
        → Preserves P (elim r as (λ x. M Exit) [ some x ↦ pure x | none ↦ monitoring_loop fuel ])
    monitoring_next fuel rest none = rest
    monitoring_next fuel rest (some x) = Preserves-pure x

    Preserves-monitoring_loop : (fuel : ℕ) → Preserves P (monitoring_loop fuel)
    unfolding monitoring_loop
    Preserves-monitoring_loop zero = Preserves-pure _
    Preserves-monitoring_loop (suc fuel) =
        Preserves-bind Preserves-monitoring_round
          (monitoring_next fuel (Preserves-monitoring_loop fuel))

    pub Preserves-monitoring_mode : (fuel : ℕ) → Preserves P (monitoring_mode fuel)
    unfolding monitoring_mode set_manifest_url now
    Preserves-monitoring_mode fuel = Preserves->> (Preserves-report_status u _ _) (
        Preserves-bind (Preserves-ask u _) λ answer.
          Preserves-on_answer answer (Preserves-pure _) λ url.
            Preserves->> (Preserves-modify u _ (λ w. (refl, refl))) (
              Preserves-bind (Preserves-ask u _) λ t.
                Preserves->> (Preserves-modify u _ (λ w. (refl, refl)))
                  (Preserves-monitoring_loop fuel)))

    Preserves-run_state : (fuel : ℕ) (s : State) → Preserves P (run_state fuel s)
    unfolding run_state
    Preserves-run_state fuel State.waiting =
        Preserves-bind (Preserves-waiting_mode u fuel) (Preserves-after_mode u)
    Preserves-run_state fuel State.monitoring =
        Preserves-bind (Preserves-monitoring_mode fuel) (Preserves-after_mode u)
    Preserves-run_state fuel State.completed = Preserves-pure _
    Preserves-run_state fuel State.error = Preserves-pure _

    Preserves-run_round : (fuel : ℕ) → Preserves P (run_round fuel)
    unfolding run_round graceful_shutdown get_state
    Preserves-run_round fuel = Preserves-bind (Preserves-is_shutdown_requested u) λ stopping.
        Preserves-if stopping (search method_rules depth 8)
          (Preserves-bind (Preserves-gets _) (Preserves-run_state fuel))

    run_next :
        (rounds fuel : ℕ)
        → Preserves P (run_loop rounds fuel)
        → (r : Option Exit)
        → Preserves P (elim r as (λ x. M Exit) [ some x ↦ pure x | none ↦ run_loop rounds fuel ])
    run_next rounds fuel rest none = rest
    run_next rounds fuel rest (some x) = Preserves-pure x

    Preserves-run_loop : (rounds fuel : ℕ) → Preserves P (run_loop rounds fuel)
    unfolding run_loop
    Preserves-run_loop zero fuel = Preserves-pure _
    Preserves-run_loop (suc rounds) fuel =
        Preserves-bind (Preserves-run_round fuel)
          (run_next rounds fuel (Preserves-run_loop rounds fuel))

    pub Preserves-run : Preserves P (emit cleaned_monitor) → (fuel : ℕ) → Preserves P (run fuel)
    unfolding run run_ready release
    Preserves-run released fuel = Preserves-bind (Preserves-ask u _) λ ready.
        Preserves-if ready
          (Preserves->> (Preserves-modify u _ (λ w. (refl, refl))) (
            Preserves-bind (Preserves-run_loop 3 fuel) λ x.
              Preserves->> (Preserves->> (Preserves-modify u _ (λ w. (refl, refl))) released)
                (Preserves-pure x)))
          (Preserves-pure _)

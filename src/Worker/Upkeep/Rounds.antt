-- ===== src/Worker/Upkeep/Rounds.antt =====
-- internal/worker/worker.go: a property that the plain steps keep is kept by the waiting mode and by the
-- steps of the monitoring mode.
use youtube_stream_tracker.Worker.Upkeep.{
  Preserves-on_answer, Preserves-ask, Preserves-select_shutdown, Preserves-modify, Preserves-if,
  Preserves-bind, Preserves-pure, Preserves->>, Preserves-is_shutdown_requested, Preserves, Upkeep,
}
use youtube_stream_tracker.Worker.World.{
  ◌>>=◌, pure, M, StreamInfo, WorkerError, LiveStatus, World, Env,
}
use youtube_stream_tracker.Worker.Actions.{now, get_state, transition_to_error}
use youtube_stream_tracker.Worker.Modes.{
  refresh_manifest, refresh_manifest_url, wait_rest, refresh_all, after_analysis, after_failure,
  after_mode,
}
use youtube_stream_tracker.Prelude.{
  if◌then◌else◌, true, zero, none, suc, some, false, ℕ, Bool, Option, refl,
}
use youtube_stream_tracker.Worker.Upkeep.Methods.{
  Preserves-clear_segment_error, Preserves-handle_segment_error, method_rules,
}
use youtube_stream_tracker.Worker.Waiting.{
  Exit, waiting_mode, begin_monitoring, follow_status, not_yet_live, next_interval, wait_for_tick,
  waiting_loop, check_stream, already_ended, follow_info, waiting_round, check_delay, Round, leave,
  again, failed, finished, out_of_fuel,
}

-- What a round does behind the test of the flag.
abbrev pub awaited : ℕ → Bool → Bool → M Round
awaited interval alert_sent first_check = do
  stopped ← wait_for_tick first_check
  if stopped then pure (leave finished) else check_stream interval alert_sent

module _ {P : Env → World → Type 0} (u : Upkeep P) where
  pub Preserves-begin_monitoring : (info : Option StreamInfo) → Preserves P (begin_monitoring info)
  unfolding begin_monitoring get_state
  Preserves-begin_monitoring info =
      Preserves->> (Preserves-modify u _ (λ w. (refl, refl))) (search method_rules depth 12)

  pub Preserves-already_ended : (s : LiveStatus) → Preserves P (already_ended s)
  unfolding already_ended get_state
  Preserves-already_ended s =
      Preserves->> (Preserves-modify u _ (λ w. (refl, refl))) (search method_rules depth 12)

  pub Preserves-follow_status :
      (n : ℕ) (a : Bool) (s : LiveStatus) → Preserves P (follow_status n a s)
  unfolding follow_status
  Preserves-follow_status n a LiveStatus.is_upcoming =
      Preserves->> (Preserves-modify u _ (λ w. (refl, refl))) (Preserves-pure _)
  Preserves-follow_status n a LiveStatus.was_live = Preserves-already_ended _
  Preserves-follow_status n a LiveStatus.not_live = Preserves-already_ended _
  Preserves-follow_status n a LiveStatus.is_live = Preserves-pure _
  Preserves-follow_status n a (LiveStatus.other s) = Preserves-pure _

  pub Preserves-follow_info :
      (n : ℕ) (a : Bool) (info : Option StreamInfo) → Preserves P (follow_info n a info)
  unfolding follow_info
  Preserves-follow_info n a none = Preserves-pure _
  Preserves-follow_info n a (some info) = Preserves-follow_status n a info.live_status

  pub Preserves-next_interval : (n : ℕ) → Preserves P (next_interval n)
  unfolding next_interval now
  Preserves-next_interval n = search method_rules depth 12

  pub Preserves-check_delay : (a : Bool) → Preserves P (check_delay a)
  unfolding check_delay now
  Preserves-check_delay a = search method_rules depth 14

  pub Preserves-not_yet_live :
      (n : ℕ) (a : Bool) (info : Option StreamInfo) → Preserves P (not_yet_live n a info)
  unfolding not_yet_live
  Preserves-not_yet_live n a info =
      Preserves-bind (Preserves-next_interval n)
        λ n'. Preserves-bind (Preserves-check_delay a) λ a'. Preserves-follow_info n' a' info

  pub Preserves-wait_for_tick : (b : Bool) → Preserves P (wait_for_tick b)
  unfolding wait_for_tick
  Preserves-wait_for_tick true = Preserves-pure _
  Preserves-wait_for_tick false = (Preserves-select_shutdown u)

  pub Preserves-check_stream : (n : ℕ) (a : Bool) → Preserves P (check_stream n a)
  unfolding check_stream
  Preserves-check_stream n a = Preserves-bind (Preserves-ask u _) λ answer.
      Preserves-on_answer answer (Preserves-pure _) λ (b, info).
        Preserves-if b (Preserves-begin_monitoring info) (Preserves-not_yet_live n a info)

  pub Preserves-awaited : (n : ℕ) (a b : Bool) → Preserves P (awaited n a b)
  Preserves-awaited n a b =
      Preserves-bind (Preserves-wait_for_tick b)
        λ stopped. Preserves-if stopped (Preserves-pure _) (Preserves-check_stream n a)

  pub Preserves-refresh_manifest : Preserves P refresh_manifest
  unfolding refresh_manifest refresh_manifest_url
  Preserves-refresh_manifest = Preserves-bind (Preserves-ask u _) λ answer.
      Preserves-on_answer answer (Preserves-pure _) λ url. Preserves-modify u _ (λ w. (refl, refl))

  pub Preserves-refresh_all : (n : ℕ) → Preserves P (refresh_all n)
  unfolding refresh_all
  Preserves-refresh_all zero = (Preserves-is_shutdown_requested u)
  Preserves-refresh_all (suc n) = Preserves-bind (Preserves-select_shutdown u) λ stopped.
      Preserves-if stopped (Preserves-pure _)
        (Preserves->> Preserves-refresh_manifest (Preserves-refresh_all n))

  pub Preserves-wait_rest : (n : ℕ) → Preserves P (wait_rest n)
  unfolding wait_rest now
  Preserves-wait_rest n = search method_rules depth 12

  pub Preserves-after_failure : (err : WorkerError) → Preserves P (after_failure err)
  unfolding after_failure get_state
  Preserves-after_failure err = search (method_rules, (Preserves-handle_segment_error u)) depth 12

  pub Preserves-after_analysis : (r : Option WorkerError) → Preserves P (after_analysis r)
  unfolding after_analysis
  Preserves-after_analysis none = Preserves->> (Preserves-clear_segment_error u) (Preserves-pure _)
  Preserves-after_analysis (some err) = Preserves-after_failure err

  pub Preserves-waiting_round : (n : ℕ) (a b : Bool) → Preserves P (waiting_round n a b)
  unfolding waiting_round get_state
  Preserves-waiting_round n a b = search (method_rules, Preserves-awaited) depth 10

  waiting_next :
      (fuel : ℕ)
      → ((n : ℕ) (a : Bool) → Preserves P (waiting_loop fuel n a false))
      → (r : Round)
      → Preserves P
          (elim r as (λ x. M Exit) [ leave x ↦ pure x | again n a ↦ waiting_loop fuel n a false ])
  waiting_next fuel rest (leave x) = Preserves-pure x
  waiting_next fuel rest (again n a) = rest n a

  pub Preserves-waiting_loop : (fuel n : ℕ) (a b : Bool) → Preserves P (waiting_loop fuel n a b)
  unfolding waiting_loop
  Preserves-waiting_loop zero n a b = Preserves-pure _
  Preserves-waiting_loop (suc fuel) n a b =
      Preserves-bind (Preserves-waiting_round n a b)
        (waiting_next fuel (λ m c. Preserves-waiting_loop fuel m c false))

  pub Preserves-waiting_mode : (fuel : ℕ) → Preserves P (waiting_mode fuel)
  unfolding waiting_mode
  Preserves-waiting_mode fuel = search (method_rules, Preserves-waiting_loop) depth 8

  pub Preserves-after_mode : (x : Exit) → Preserves P (after_mode x)
  unfolding after_mode transition_to_error
  Preserves-after_mode finished = Preserves-pure _
  Preserves-after_mode (failed err) = search method_rules depth 10
  Preserves-after_mode out_of_fuel = Preserves-pure _

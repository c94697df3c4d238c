-- ===== src/Worker/Progress/Termination.antt =====
-- internal/worker/worker.go: a signalled shutdown ends `Run`, whose main loop makes at most three rounds.
use youtube_stream_tracker.Worker.Progress.Rounds.{
  monitoring-Enough, monitoring_mode-OverOk, OverOk, waiting-Enough, Enough, rank, Lasts-later,
}
use youtube_stream_tracker.Worker.Modes.Runs.{branch, go_on}
use youtube_stream_tracker.Worker.Progress.Loops.{
  Lively-monitoring_mode, Lively-prepared, Lively-waiting_mode, prepared,
}
use youtube_stream_tracker.Worker.Waiting.Outcome.{waiting_mode-WaitOk, WaitOk}
use youtube_stream_tracker.Worker.Frame.{advance-state, advance-shutdown}
use youtube_stream_tracker.Model.{MonitorStatus}
use youtube_stream_tracker.Worker.Progress.{
  Follows-advance, Lively-report_status, Follows-trans, Follows, Due,
}
use youtube_stream_tracker.Worker.Progress.Ending.{monitoring_loop-ends, waiting_loop-ends, Lasts}
use youtube_stream_tracker.Worker.World.{
  reported, advance, World, Env, State, pure, ◌>>=◌, on_answer, ◌>>◌, ask, emit, modify, gets,
}
use youtube_stream_tracker.Worker.Actions.{
  get_state, graceful_shutdown, is_shutdown_requested, report_status, now,
}
use youtube_stream_tracker.Worker.Modes.{
  release, run_ready, run_round, run, run_loop, run_state, after_mode, set_manifest_url,
  monitoring_mode,
}
use youtube_stream_tracker.Prelude.{
  zero, Bool, Bool-cases, ◌+◌, ap, subst, inr, Option-cases, suc, false, refl, ◌∷◌, inl, none, some,
  Option, true, ℕ, ◌≡◌, ◌≢◌, arith, ◌≤◌,
}
use youtube_stream_tracker.Worker.Waiting.{waiting_mode, Exit, finished, failed, out_of_fuel}

module _ (t fuel : ℕ) (e : Env) (signalled : e.shutdown_signalled t ≡ true) where
  monitoring_mode-ends :
      (w : World) → Due t w → Lasts t fuel w → (monitoring_mode fuel e w).0 ≢ out_of_fuel
  unfolding monitoring_mode report_status emit ask now modify on_answer set_manifest_url pure ◌>>=◌
      ◌>>◌
  monitoring_mode-ends w d l =
      let w1 : World =
        advance e (record w { trace = reported MonitorStatus.monitoring none ∷ w.trace }) in
      let f1 : Follows t w w1 =
        Follows-trans ((Lively-report_status MonitorStatus.monitoring none).at t e w signalled)
          (Follows-advance t e _ signalled) in
      elim (Option-cases (e.manifest_url w.tick)) [
        | inl n ↦ rw (n, monitoring_mode) (λ h. absurd cc)
        | inr (url, q) ↦
            let f : Follows t w (prepared url e w1).1 =
              Follows-trans f1 ((Lively-prepared url).at t e w1 signalled) in
            rw (q, monitoring_mode)
              (monitoring_loop-ends t e signalled fuel _ (f.due d)
                (Lasts-later t fuel w (prepared url e w1).1 f.later l))
      ]

  waiting_mode-ends :
      (w : World)
      → w.worker.state ≡ State.waiting
      → Due t w
      → Lasts t fuel w
      → (waiting_mode fuel e w).0 ≢ out_of_fuel
  unfolding waiting_mode report_status emit gets ◌>>=◌ ◌>>◌
  waiting_mode-ends w s d l =
      waiting_loop-ends t e signalled fuel _ _ _ _ (record { same_or_error = inl s }) d l

  -- What holds behind a round of the main loop.
  abbrev Next : ℕ → Option Exit → World → Type 0
  Next rounds none w = Enough rounds w × Due t w × Lasts t fuel w
  Next rounds (some finished) w = Unit
  Next rounds (some (failed err)) w = Unit
  Next rounds (some out_of_fuel) w = ⊥

  after_mode-Next :
      (rounds : ℕ) (x : Exit) (v : World)
      → x ≢ out_of_fuel
      → (x ≡ finished → Next rounds none v)
      → Next rounds (after_mode x e v).0 (after_mode x e v).1
  unfolding after_mode pure ◌>>◌
  after_mode-Next rounds finished v n h = h refl
  after_mode-Next rounds (failed err) v n h = tt
  after_mode-Next rounds out_of_fuel v n h = absurd (n refl)

  run_state-Next :
      (rounds : ℕ) (s : State) (w : World)
      → w.worker.state ≡ s
      → w.worker.shutdown_requested ≡ false
      → Enough (suc rounds) w
      → Due t w
      → Lasts t fuel w
      → Next rounds (run_state fuel s e w).0 (run_state fuel s e w).1
  unfolding run_state pure ◌>>=◌
  run_state-Next rounds State.waiting w q f k d l =
      after_mode-Next rounds (waiting_mode fuel e w).0 (waiting_mode fuel e w).1
        (waiting_mode-ends w q d l)
        λ h.
          let w' : World = (waiting_mode fuel e w).1 in
          let g : Follows t w w' = (Lively-waiting_mode fuel).at t e w signalled in
          let o : WaitOk finished w' =
            subst (λ x. WaitOk x w') h (waiting_mode-WaitOk fuel e w q) in
          (waiting-Enough rounds w w' q f k o, g.due d, Lasts-later t fuel w w' g.later l)
  run_state-Next rounds State.monitoring w q f k d l =
      after_mode-Next rounds (monitoring_mode fuel e w).0 (monitoring_mode fuel e w).1
        (monitoring_mode-ends w d l)
        λ h.
          let w' : World = (monitoring_mode fuel e w).1 in
          let g : Follows t w w' = (Lively-monitoring_mode fuel).at t e w signalled in
          let o : OverOk finished w' =
            subst (λ x. OverOk x w') h ((monitoring_mode-OverOk fuel).at e w) in
          (monitoring-Enough rounds w w' q f k o, g.due d, Lasts-later t fuel w w' g.later l)
  run_state-Next rounds State.completed w q f k d l = tt
  run_state-Next rounds State.error w q f k d l = tt

  branch-Next :
      (rounds : ℕ) (b : Bool) (w : World)
      → w.worker.shutdown_requested ≡ b
      → Enough (suc rounds) w
      → Due t w
      → Lasts t fuel w
      → Next rounds (branch fuel b e w).0 (branch fuel b e w).1
  unfolding graceful_shutdown report_status emit get_state gets pure ◌>>=◌ ◌>>◌
  branch-Next rounds true w f k d l = tt
  branch-Next rounds false w f k d l = run_state-Next rounds w.worker.state w refl f k d l

  Enough-advance : (rounds : ℕ) (w : World) → Enough rounds w → Enough rounds (advance e w)
  Enough-advance rounds w (p, inl s) = (p, inl (advance-shutdown e w s))
  Enough-advance rounds w (p, inr r) = (p, inr (omega (arith, r, ap rank (advance-state e w))))

  run_round-Next :
      (rounds : ℕ) (w : World)
      → Enough (suc rounds) w
      → Due t w
      → Lasts t fuel w
      → Next rounds (run_round fuel e w).0 (run_round fuel e w).1
  unfolding run_round is_shutdown_requested ◌>>=◌
  run_round-Next rounds w k d l =
      let f : Follows t w (advance e w) = Follows-advance t e w signalled in
      branch-Next rounds _ (advance e w) refl (Enough-advance (suc rounds) w k) (f.due d)
        (Lasts-later t fuel w (advance e w) f.later l)

  go_on-ends :
      (rounds : ℕ) (r : Option Exit) (v : World)
      → Next rounds r v
      → ((u : World)
          → Enough rounds u
          → Due t u
          → Lasts t fuel u
          → (run_loop rounds fuel e u).0 ≢ out_of_fuel)
      → (go_on rounds fuel r e v).0 ≢ out_of_fuel
  unfolding pure
  go_on-ends rounds none v (k, d, l) rest = rest v k d l
  go_on-ends rounds (some finished) v h rest = λ q. absurd cc
  go_on-ends rounds (some (failed err)) v h rest = λ q. absurd cc
  go_on-ends rounds (some out_of_fuel) v h rest = absurd h

  run_loop-ends :
      (rounds : ℕ) (w : World)
      → Enough rounds w
      → Due t w
      → Lasts t fuel w
      → (run_loop rounds fuel e w).0 ≢ out_of_fuel
  unfolding run_loop ◌>>=◌
  run_loop-ends zero w k d l = absurd (omega (arith, k.0))
  run_loop-ends (suc rounds) w k d l =
      go_on-ends rounds (run_round fuel e w).0 (run_round fuel e w).1
        (run_round-Next rounds w k d l) (run_loop-ends rounds)

  rank-bound : (s : State) → rank s ≤ 3
  rank-bound State.waiting = omega arith
  rank-bound State.monitoring = omega arith
  rank-bound State.completed = omega arith
  rank-bound State.error = omega arith

  run_ready-ends : (w : World) → Due t w → Lasts t fuel w → (run_ready fuel e w).0 ≢ out_of_fuel
  unfolding run_ready modify release pure ◌>>=◌ ◌>>◌
  run_ready-ends w d l =
      let v : World = record w { worker = record w.worker { has_cancel_work = true } } in
      run_loop-ends 3 v (omega arith, inr (rank-bound w.worker.state)) d l

  -- A signal at tick `t`, not before the start of `Run`, makes `Run` return, whatever the outside answers
  -- and however the stream goes on, if the modes get fuel for at least `t + 2` rounds: the main loop needs
  -- no more than its three rounds, and no mode uses its fuel up.
  pub run-ends : (w : World) → w.tick ≤ t → t + 2 ≤ fuel → (run fuel e w).0 ≢ out_of_fuel
  unfolding run ask pure ◌>>=◌
  run-ends w h k =
      let f : Follows t w (advance e w) = Follows-advance t e w signalled in
      elim (Bool-cases (e.tmp_dir_ready w.tick)) [
        | inl y ↦ rw (y, run) (run_ready-ends (advance e w) (f.due (inr h)) (omega arith))
        | inr n ↦ rw (n, run) (λ q. absurd cc)
      ]

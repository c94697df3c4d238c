-- ===== src/Worker/Progress/Rounds.antt =====
-- internal/worker/worker.go: the rounds of `Run`'s main loop that are left, and how its modes hand over.
use youtube_stream_tracker.Worker.Modes.Monitoring.{monitoring_loop-Gives, ExitOk}
use youtube_stream_tracker.Worker.Waiting.Outcome.{WaitOk}
use youtube_stream_tracker.Worker.Frame.{Gives-pure, Gives-on_answer, Gives-bind, Gives->>, Gives}
use youtube_stream_tracker.Worker.Progress.Ending.{Lasts}
use youtube_stream_tracker.Worker.World.{World, State}
use youtube_stream_tracker.Worker.Modes.{monitoring_mode}
use youtube_stream_tracker.Prelude.{ap, inr, suc, false, inl, true, ℕ, ◌⊎◌, ◌≡◌, arith, ◌≤◌}
use youtube_stream_tracker.Worker.Waiting.{Exit, finished, failed, out_of_fuel}

-- The rounds of the main loop that a state may still take.
abbrev pub rank : State → ℕ
rank State.waiting = 3
rank State.monitoring = 2
rank State.completed = 1
rank State.error = 1

abbrev pub Enough : ℕ → World → Type 0
Enough rounds w =
    (1 ≤ rounds) × ((w.worker.shutdown_requested ≡ true) ⊎ (rank w.worker.state ≤ rounds))

pub Lasts-later : (t fuel : ℕ) (w w' : World) → w.tick ≤ w'.tick → Lasts t fuel w → Lasts t fuel w'
Lasts-later t fuel w w' h l = omega arith

-- How the monitoring mode may end, but for its errors.
abbrev pub OverOk : Exit → World → Type 0
OverOk finished w = (w.worker.state ≡ State.completed) ⊎ (w.worker.shutdown_requested ≡ true)
OverOk x w = Unit

pub ExitOk-OverOk : (x : Exit) (w : World) → ExitOk x w → OverOk x w
ExitOk-OverOk finished w h = h
ExitOk-OverOk (failed err) w h = tt
ExitOk-OverOk out_of_fuel w h = tt

pub monitoring_mode-OverOk : (fuel : ℕ) → Gives OverOk (monitoring_mode fuel)
unfolding monitoring_mode
monitoring_mode-OverOk fuel = Gives->> _ (
    Gives-bind _ λ answer. Gives-on_answer answer (Gives-pure _ (λ w. tt)) λ url. Gives->> _ (
      Gives-bind _ λ t.
        Gives->> _
          (record { at = λ e w. ExitOk-OverOk _ _ ((monitoring_loop-Gives fuel).at e w) })))

pub waiting-Enough :
    (rounds : ℕ) (w w' : World)
    → w.worker.state ≡ State.waiting
    → w.worker.shutdown_requested ≡ false
    → Enough (suc rounds) w
    → WaitOk finished w'
    → Enough rounds w'
waiting-Enough rounds w w' q f k o =
    let three : rank w.worker.state ≤ suc rounds = elim k.1 [ inl s ↦ absurd cc | inr r ↦ r ] in
    elim o [
      | inl m ↦ (omega (arith, ap rank q, three), inr (omega (arith, ap rank q, ap rank m, three)))
      | inr (inl c) ↦
          (omega (arith, ap rank q, three), inr (omega (arith, ap rank q, ap rank c, three)))
      | inr (inr s) ↦ (omega (arith, ap rank q, three), inl s)
    ]

pub monitoring-Enough :
    (rounds : ℕ) (w w' : World)
    → w.worker.state ≡ State.monitoring
    → w.worker.shutdown_requested ≡ false
    → Enough (suc rounds) w
    → OverOk finished w'
    → Enough rounds w'
monitoring-Enough rounds w w' q f k o =
    let two : rank w.worker.state ≤ suc rounds = elim k.1 [ inl s ↦ absurd cc | inr r ↦ r ] in
    elim o [
      | inl c ↦ (omega (arith, ap rank q, two), inr (omega (arith, ap rank q, ap rank c, two)))
      | inr s ↦ (omega (arith, ap rank q, two), inl s)
    ]

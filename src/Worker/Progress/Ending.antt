-- ===== src/Worker/Progress/Ending.antt =====
-- internal/worker/worker.go: a signalled shutdown ends the loops of the two modes. Each round that goes
-- on has found the flag down, and so has gone at least one tick towards the signal.
use youtube_stream_tracker.Worker.Waiting.Outcome.{waiting_round-RoundOk, RoundOk}
use youtube_stream_tracker.Worker.Modes.Monitoring.{monitoring_round-Gives, MaybeExitOk}
use youtube_stream_tracker.Worker.Delivery.{MayFail}
use youtube_stream_tracker.Worker.Frame.{advance-shutdown, advance-tick}
use youtube_stream_tracker.Worker.Progress.Loops.{Lively-awaited, Lively-observed}
use youtube_stream_tracker.Worker.Upkeep.Rounds.{awaited}
use youtube_stream_tracker.Worker.Upkeep.Loops.{observed}
use youtube_stream_tracker.Worker.Progress.{Follows-advance, Follows, Lively, Due}
use youtube_stream_tracker.Worker.World.{State, advance, M, Env, World, gets, pure, ◌>>=◌}
use youtube_stream_tracker.Worker.Actions.{get_state, is_shutdown_requested}
use youtube_stream_tracker.Worker.Modes.{monitoring_loop, monitoring_round}
use youtube_stream_tracker.Prelude.{
  some, Bool, Option, refl, inl, inr, false, none, zero, true, suc, ℕ, ◌+◌, ◌≤◌, ◌≢◌, arith, ◌≡◌,
}
use youtube_stream_tracker.Worker.Waiting.{
  waiting_round, waiting_loop, Exit, finished, failed, out_of_fuel, leave, again, Round,
}

-- That the fuel lasts until the signal at tick `t`.
abbrev pub Lasts : (t fuel : ℕ) → World → Type 0
Lasts t fuel w = (1 ≤ fuel) × (suc (suc t) ≤ fuel + w.tick)

module _ (t : ℕ) (e : Env) (signalled : e.shutdown_signalled t ≡ true) where
  -- Behind a round that goes on.
  abbrev Went : World → World → Type 0
  Went w w' = (w.tick ≤ t) × (suc w.tick ≤ w'.tick) × Due t w'

  flag-down : (w : World) → Due t w → (advance e w).worker.shutdown_requested ≡ false → w.tick ≤ t
  flag-down w (inr h) f = h
  flag-down w (inl h) f = absurd (cc (advance-shutdown e w h))

  Went-Lasts : (fuel : ℕ) (w w' : World) → Lasts t (suc fuel) w → Went w w' → Lasts t fuel w'
  Went-Lasts fuel w w' l g = omega arith

  went :
      {A : Type 0} (m : M A)
      → Lively m
      → (w : World) → Due t w
      → (advance e w).worker.shutdown_requested ≡ false
      → Went w (m e (advance e w)).1
  went m l w d f =
      let before : Follows t w (advance e w) = Follows-advance t e w signalled in
      let behind : Follows t (advance e w) (m e (advance e w)).1 =
        l.at t e (advance e w) signalled in
      (flag-down w d f, omega (arith, behind.later, advance-tick e w), behind.due (before.due d))

  monitoring_round-Went :
      (w : World) → Due t w → (monitoring_round e w).0 ≡ none → Went w (monitoring_round e w).1
  unfolding monitoring_round get_state gets is_shutdown_requested pure ◌>>=◌
  monitoring_round-Went w d n = ground (arith, went observed Lively-observed w d)

  pub monitoring_loop-ends :
      (fuel : ℕ) (w : World) → Due t w → Lasts t fuel w → (monitoring_loop fuel e w).0 ≢ out_of_fuel
  unfolding monitoring_loop pure ◌>>=◌
  monitoring_loop-ends zero w d l = absurd (omega arith)
  monitoring_loop-ends (suc fuel) w d l =
      follow (monitoring_round e w).0 (monitoring_round e w).1 (monitoring_round-Gives.at e w)
        (monitoring_round-Went w d)
        (λ v g. monitoring_loop-ends fuel v g.2 (Went-Lasts fuel w v l g))
    where
      follow :
          (r : Option Exit) (v : World)
          → MaybeExitOk r v
          → (r ≡ none → Went w v)
          → ((u : World) → Went w u → (monitoring_loop fuel e u).0 ≢ out_of_fuel)
          → let m : M Exit = elim r [ some x ↦ pure x | none ↦ monitoring_loop fuel ] in
            (m e v).0 ≢ out_of_fuel
      follow none v o g rest = rest v (g refl)
      follow (some finished) v o g rest = λ h. absurd cc
      follow (some (failed x)) v o g rest = λ h. absurd cc
      follow (some out_of_fuel) v o g rest = absurd o

  -- A round of the waiting mode that goes on.
  abbrev IsAgain : Round → Type 0
  IsAgain (leave x) = ⊥
  IsAgain (again i a) = Unit

  waiting_round-Went :
      (i : ℕ) (a first : Bool) (w : World)
      → Due t w
      → IsAgain (waiting_round i a first e w).0
      → Went w (waiting_round i a first e w).1
  unfolding waiting_round get_state gets is_shutdown_requested pure ◌>>=◌
  waiting_round-Went i a first w d n =
      ground (arith, went (awaited i a first) (Lively-awaited i a first) w d)

  pub waiting_loop-ends :
      (fuel i : ℕ) (a first : Bool) (w : World)
      → MayFail State.waiting w
      → Due t w
      → Lasts t fuel w
      → (waiting_loop fuel i a first e w).0 ≢ out_of_fuel
  unfolding waiting_loop pure ◌>>=◌
  waiting_loop-ends zero i a first w k d l = absurd (omega arith)
  waiting_loop-ends (suc fuel) i a first w k d l =
      follow (waiting_round i a first e w).0 (waiting_round i a first e w).1
        (waiting_round-RoundOk i a first e w k) (waiting_round-Went i a first w d)
        (λ i' a' v o g. waiting_loop-ends fuel i' a' false v o g.2 (Went-Lasts fuel w v l g))
    where
      follow :
          (r : Round) (v : World)
          → RoundOk r v
          → (IsAgain r → Went w v)
          → ((i' : ℕ) (a' : Bool) (u : World)
              → MayFail State.waiting u
              → Went w u
              → (waiting_loop fuel i' a' false e u).0 ≢ out_of_fuel)
          → let m : M Exit = elim r [
            | leave x ↦ pure x
            | again i' a' ↦ waiting_loop fuel i' a' false
          ] in
            (m e v).0 ≢ out_of_fuel
      follow (again i' a') v o g rest = rest i' a' v o (g tt)
      follow (leave finished) v o g rest = λ h. absurd cc
      follow (leave (failed x)) v o g rest = λ h. absurd cc
      follow (leave out_of_fuel) v o g rest = absurd o

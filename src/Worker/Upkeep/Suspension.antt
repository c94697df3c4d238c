-- ===== src/Worker/Upkeep/Suspension.antt =====
-- internal/worker/worker.go: the webhooks stream.suspended and stream.resumed.
use youtube_stream_tracker.Worker.Upkeep.Methods.{Preserves-finish_segment}
use youtube_stream_tracker.Worker.Upkeep.Loops.{Preserves-run}
use youtube_stream_tracker.Worker.Modes.{run}
use youtube_stream_tracker.Worker.Upkeep.Protocol.{replay}
use youtube_stream_tracker.Worker.World.{
  cleaned, saved, cleaned_monitor, analyzed, World, Env, Worker,
}
use youtube_stream_tracker.Manifest.Segment.{Segment}
use youtube_stream_tracker.Worker.Upkeep.{
  Preserves-if, Preserves-gets, Preserves-is_shutdown_requested, Preserves-on_answer,
  Preserves-pure, Preserves-emit, Preserves->>, Preserves-ask, Preserves-bind, Preserves,
}
use youtube_stream_tracker.Worker.Actions.{get_state, now}
use youtube_stream_tracker.Worker.Segments.{
  process_segment, check_suspension, analyze_saved, suspension_update, accept_segment,
}
use youtube_stream_tracker.Prelude.{some, ◌⊎◌, false, String, true, Bool, ℕ, refl, arith, ◌≡◌}
use youtube_stream_tracker.Worker.Upkeep.Announcement.{
  Announces->>, Flagged-emit, Announces-send_webhook, Announces-update, suspension_step, Flagged,
  keeper,
}

suspension_update-cases :
    (t : ℕ) (v : Worker)
    → (((suspension_update t v).1 ≡ true)
        × (v.suspended_alert_sent ≡ false)
        × ((suspension_update t v).0.suspended_alert_sent ≡ true))
      ⊎ (((suspension_update t v).1 ≡ false)
          × ((suspension_update t v).0.suspended_alert_sent ≡ v.suspended_alert_sent))
unfolding suspension_update
suspension_update-cases t v = ground arith

accept_segment-cases :
    (t : ℕ) (s : Segment) (b : Bool) (v : Worker)
    → (((accept_segment t s b v).1 ≡ true)
        × (v.suspended_alert_sent ≡ true)
        × ((accept_segment t s b v).0.suspended_alert_sent ≡ false))
      ⊎ (((accept_segment t s b v).1 ≡ false)
          × ((accept_segment t s b v).0.suspended_alert_sent ≡ v.suspended_alert_sent))
unfolding accept_segment
accept_segment-cases t s b v = ground arith

Flagged-check_suspension : Preserves Flagged check_suspension
unfolding check_suspension now
Flagged-check_suspension = Preserves-bind (Preserves-ask keeper _) λ t.
    Announces-update false _ (suspension_update-cases t)
      (Announces-send_webhook keeper false _ _ refl) (Preserves-pure _)

Flagged-analyze_saved :
    (s : Segment) (b : Bool) (path : String) → Preserves Flagged (analyze_saved s b path)
unfolding analyze_saved now get_state
Flagged-analyze_saved s b path = Preserves-bind (Preserves-ask keeper _) λ answer.
    Preserves->> (Flagged-emit (analyzed path) (λ b. refl)) (
      Preserves-on_answer answer (Preserves-pure _) λ r.
        Preserves-bind (Preserves-ask keeper _) λ t.
          Announces-update true _ (accept_segment-cases t s b)
            (Announces->> (Announces-send_webhook keeper true _ _ refl) (
              Preserves-bind (Preserves-gets _)
                λ st. Preserves-if _ (Preserves-pure _) (Preserves-finish_segment keeper s r)))
            (Preserves-finish_segment keeper s r))

Flagged-process_segment : (s : Segment) (b : Bool) → Preserves Flagged (process_segment s b)
unfolding process_segment
Flagged-process_segment s b = Preserves-bind (Preserves-ask keeper _) λ bytes.
    Preserves->> (Preserves-emit keeper _ tt) (
      Preserves-on_answer bytes (Preserves-pure _) λ x.
        Preserves-bind (Preserves-is_shutdown_requested keeper) λ stopping.
          Preserves-if stopping (Preserves-pure _) (
            Preserves-bind (Preserves-ask keeper _) λ answer.
              Preserves-on_answer answer (Preserves-pure _) λ path.
                Preserves->> (Flagged-emit (saved path) (λ b. refl)) (
                  Preserves-bind (Flagged-analyze_saved s b path) λ r.
                    Preserves-bind (Preserves-ask keeper _) λ removed.
                      Preserves->> (Flagged-emit (cleaned path removed) (λ b. refl))
                        (Preserves-pure r))))

-- Where the flag `suspended_alert_sent` says before `Run` whether the webhooks sent so far leave a
-- suspension open, it does so after it; until then each stream.suspended was sent with no suspension
-- open, and each stream.resumed with one open.
pub run-suspension_step :
    (fuel : ℕ) (e : Env) (w : World)
    → replay suspension_step false w.trace ≡ some w.worker.suspended_alert_sent
    → let w' = (run fuel e w).1 in
      replay suspension_step false w'.trace ≡ some w'.worker.suspended_alert_sent
run-suspension_step fuel =
    (Preserves-run keeper Flagged-check_suspension Flagged-process_segment
      (Flagged-emit cleaned_monitor (λ b. refl)) fuel).at

-- ===== src/Worker/Upkeep/Methods.antt =====
-- internal/worker/worker.go: a property that the plain steps keep is kept by each method.
use youtube_stream_tracker.Manifest.Segment.{Segment}
use youtube_stream_tracker.Worker.Upkeep.{
  Preserves-update, Preserves-on_answer, Preserves-gets, Preserves->>, Preserves-if, Preserves-ask,
  Preserves-pure, Preserves-modify, is_plain, Preserves-bind, Preserves, Preserves-report_status,
  Upkeep, Preserves-emit, IsStill, Preserves-send_webhook, preserves_rules,
}
use youtube_stream_tracker.Worker.Actions.{now, report_status_update, get_state}
use youtube_stream_tracker.Worker.Detection.{
  process_black_detection, silence_update, notify, black_update, process_silence_detection,
}
use youtube_stream_tracker.Worker.World.{
  AnalysisResult, WorkerError, EndReason, EventData, Worker, World, EventType, Env, ◌>>=◌, update,
}
use youtube_stream_tracker.Worker.Segments.{
  process_segment, check_suspension, clear_segment_error, should_check_live, analyze_latest_segment,
  webhook_outcome, end_stream, handle_segment_error, note_segment, check_live_status,
  count_segment_error, confirm_segment_error, take_segment, finish_segment, start_segment_error,
  segment_error_due,
}
use youtube_stream_tracker.Prelude.{none, some, false, true, Bool, Option, ℕ, refl, ◌≡◌, arith}

black_update-IsStill : (n : ℕ) (b : Bool) (d : ℕ) → IsStill (λ w. (black_update n b d w).0)
unfolding black_update
black_update-IsStill n true d w = (ground arith, ground arith)
black_update-IsStill n false d w = (ground arith, ground arith)

silence_update-IsStill : (n : ℕ) (b : Bool) (d : ℕ) → IsStill (λ w. (silence_update n b d w).0)
unfolding silence_update
silence_update-IsStill n true d w = (ground arith, ground arith)
silence_update-IsStill n false d w = (ground arith, ground arith)

start_segment_error-IsStill : (n : ℕ) → IsStill (start_segment_error n)
unfolding start_segment_error
start_segment_error-IsStill n w = (ground arith, ground arith)

segment_error_due-IsStill : (n : ℕ) → IsStill (λ w. (segment_error_due n w).0)
unfolding segment_error_due
segment_error_due-IsStill n w = (ground arith, ground arith)

-- An event, if any, that is not about a suspension.
abbrev IsPlainEvent : Option (EventType × EventData) → Type 0
IsPlainEvent none = Unit
IsPlainEvent (some (t, d)) = is_plain t ≡ true

black_update-IsPlainEvent :
    (n : ℕ) (b : Bool) (d : ℕ) (w : Worker) → IsPlainEvent (black_update n b d w).1
unfolding black_update
black_update-IsPlainEvent n true d w = ground arith
black_update-IsPlainEvent n false d w = ground arith

silence_update-IsPlainEvent :
    (n : ℕ) (b : Bool) (d : ℕ) (w : Worker) → IsPlainEvent (silence_update n b d w).1
unfolding silence_update
silence_update-IsPlainEvent n true d w = ground arith
silence_update-IsPlainEvent n false d w = ground arith

pub ruleset method_rules =
    (preserves_rules, Preserves-send_webhook, Preserves-emit, Preserves-report_status)

module _ {P : Env → World → Type 0} (u : Upkeep P) where
  Preserves-notify :
      (event : Option (EventType × EventData)) → IsPlainEvent event → Preserves P (notify event)
  unfolding notify
  Preserves-notify none plain = Preserves-pure tt
  Preserves-notify (some (t, d)) plain = Preserves-send_webhook u t d plain

  -- An update and the event that it gives.
  Preserves-noted :
      (f : Worker → Worker × Option (EventType × EventData))
      → IsStill (λ w. (f w).0)
      → ((w : Worker) → IsPlainEvent (f w).1)
      → Preserves P (update f >>= notify)
  unfolding ◌>>=◌ update
  Preserves-noted f still plain = record {
    at = λ e w h.
        (Preserves-notify (f w.worker).1 (plain w.worker)).at e _
          (u.on_worker (λ v. (f v).0) still e w h);
  }

  Preserves-process_black_detection : (b : Bool) (d : ℕ) → Preserves P (process_black_detection b d)
  unfolding process_black_detection now
  Preserves-process_black_detection b d =
      Preserves-bind (Preserves-ask u _)
        λ t. Preserves-noted _ (black_update-IsStill t b d) (black_update-IsPlainEvent t b d)

  Preserves-process_silence_detection :
      (b : Bool) (d : ℕ) → Preserves P (process_silence_detection b d)
  unfolding process_silence_detection now
  Preserves-process_silence_detection b d =
      Preserves-bind (Preserves-ask u _)
        λ t. Preserves-noted _ (silence_update-IsStill t b d) (silence_update-IsPlainEvent t b d)

  Preserves-should_check_live : Preserves P should_check_live
  unfolding should_check_live now
  Preserves-should_check_live = Preserves-bind (Preserves-ask u _) λ t.
      Preserves-bind (Preserves-gets _) λ due.
        Preserves-if due
          (Preserves-bind (Preserves-ask u _)
            λ t'. Preserves->> (Preserves-modify u _ (λ w. (refl, refl))) (Preserves-pure true))
          (Preserves-pure false)

  Preserves-end_stream : (r : EndReason) → Preserves P (end_stream r)
  unfolding end_stream get_state
  Preserves-end_stream r = search method_rules depth 10

  Preserves-webhook_outcome : Preserves P webhook_outcome
  unfolding webhook_outcome get_state
  Preserves-webhook_outcome = search method_rules depth 8

  pub Preserves-check_live_status : Preserves P check_live_status
  unfolding check_live_status
  Preserves-check_live_status = Preserves-bind Preserves-should_check_live λ due.
      Preserves-if due
        (Preserves-bind (Preserves-ask u _) λ answer.
          Preserves-on_answer answer (Preserves-pure none)
            λ (b, info). Preserves-if b (Preserves-pure none) (Preserves-end_stream _))
        (Preserves-pure none)

  pub Preserves-finish_segment :
      (s : Segment) (r : AnalysisResult) → Preserves P (finish_segment s r)
  unfolding finish_segment report_status_update
  Preserves-finish_segment s r =
      search (method_rules, Preserves-process_black_detection, Preserves-process_silence_detection)
        depth 10

  Preserves-confirm_segment_error : (err : WorkerError) → Preserves P (confirm_segment_error err)
  unfolding confirm_segment_error
  Preserves-confirm_segment_error err = Preserves-bind (Preserves-ask u _) λ answer.
      Preserves-on_answer answer (Preserves-pure _)
        λ (b, info). search (method_rules, Preserves-end_stream) depth 8

  Preserves-count_segment_error : (err : WorkerError) → Preserves P (count_segment_error err)
  unfolding count_segment_error now
  Preserves-count_segment_error err = Preserves-bind (Preserves-ask u _) λ t.
      Preserves->> (Preserves-modify u _ (start_segment_error-IsStill t)) (
        Preserves-bind (Preserves-ask u _) λ t'.
          Preserves-bind (Preserves-update u _ (segment_error_due-IsStill t'))
            λ due. Preserves-if due (Preserves-confirm_segment_error err) (Preserves-pure false))

  pub Preserves-handle_segment_error : (err : WorkerError) → Preserves P (handle_segment_error err)
  unfolding handle_segment_error get_state
  Preserves-handle_segment_error err = search (method_rules, Preserves-count_segment_error) depth 8

  pub Preserves-clear_segment_error : Preserves P clear_segment_error
  unfolding clear_segment_error
  Preserves-clear_segment_error = Preserves-modify u _ (λ w. (refl, refl))

  module _ (suspension : Preserves P check_suspension)
      (segment : (s : Segment) (b : Bool) → Preserves P (process_segment s b)) where
    Preserves-take_segment : Preserves P take_segment
    unfolding take_segment note_segment
    Preserves-take_segment = Preserves-bind (Preserves-ask u _) λ answer.
        Preserves-on_answer answer (Preserves-pure _) λ s.
          Preserves-bind (Preserves-update u _ (λ w. (refl, refl))) λ b.
            Preserves-bind (Preserves-gets _) λ known.
              Preserves-if known (Preserves->> suspension Preserves-webhook_outcome) (segment s b)

    pub Preserves-analyze_latest_segment : Preserves P analyze_latest_segment
    unfolding analyze_latest_segment
    Preserves-analyze_latest_segment =
        search (method_rules, Preserves-end_stream, Preserves-take_segment) depth 10

-- ===== src/Worker/Progress/Methods.antt =====
-- internal/worker/worker.go: each method is lively, as it keeps every property that the plain steps keep.
use youtube_stream_tracker.Worker.Upkeep.Methods.{Preserves-finish_segment}
use youtube_stream_tracker.Worker.Upkeep.{Preserves, Upkeep}
use youtube_stream_tracker.Manifest.Segment.{Segment}
use youtube_stream_tracker.Worker.World.{Env, World, AnalysisResult, Worker, M}
use youtube_stream_tracker.Worker.Actions.{get_state, now}
use youtube_stream_tracker.Worker.Segments.{
  finish_segment, analyze_saved, accept_segment, process_segment, suspension_update,
  check_suspension,
}
use youtube_stream_tracker.Prelude.{true, String, Bool, ℕ, refl, arith, ◌≡◌}
use youtube_stream_tracker.Worker.Progress.{
  Lively-pure, Lively-on_answer, Lively-emit, Follows-advance, Follows, Follows-trans, Lively->>,
  Follows-refl, Lively-update, Lively-ask, Lively-bind, Lively, lively_rules, Lively-send_webhook,
}

-- Where the signal comes at tick `t`, the world comes after a given one.
abbrev pub Ahead : ℕ → World → Env → World → Type 0
Ahead t start e w = e.shutdown_signalled t ≡ true → Follows t start w

Ahead-follows :
    {A : Type 0} (t : ℕ) (start : World) (m : M A) → Lively m → Preserves (Ahead t start) m
Ahead-follows t start m l = record { at = λ e w h s. Follows-trans (h s) (l.at t e w s) }

pub Lively-kept :
    {A : Type 0} (m : M A) → ((t : ℕ) (start : World) → Preserves (Ahead t start) m) → Lively m
Lively-kept m p = record { at = λ t e w s. (p t w).at e w (λ s'. Follows-refl t w) s }

pub ahead : (t : ℕ) (start : World) → Upkeep (Ahead t start)
ahead t start = record {
  on_advance = λ e w h s. Follows-trans (h s) (Follows-advance t e w s);
  on_worker = λ f still e w h s.
      Follows-trans (h s)
        (record { later = omega arith; due = ground (arith, (still w.worker).1) });
  on_effect = λ x plain e w h s. Follows-trans (h s) (record { later = omega arith; due = λ d. d });
}

suspension_flag :
    (n : ℕ) (w : Worker) → ((suspension_update n w).0).shutdown_requested ≡ w.shutdown_requested
unfolding suspension_update
suspension_flag n w = ground arith

Lively-check_suspension : Lively check_suspension
unfolding check_suspension now
Lively-check_suspension = Lively-bind (Lively-ask _) λ t.
    Lively-bind (Lively-update _ (suspension_flag t))
      λ b. search (lively_rules, Lively-send_webhook) depth 8

Lively-finish_segment : (s : Segment) (r : AnalysisResult) → Lively (finish_segment s r)
Lively-finish_segment s r =
    Lively-kept (finish_segment s r) λ t start. Preserves-finish_segment (ahead t start) s r

Lively-analyze_saved : (s : Segment) (b : Bool) (path : String) → Lively (analyze_saved s b path)
unfolding analyze_saved now get_state accept_segment
Lively-analyze_saved s b path = Lively-bind (Lively-ask _) λ answer. Lively->> (Lively-emit _) (
    Lively-on_answer answer (Lively-pure _) λ r. Lively-bind (Lively-ask _) λ t.
      Lively-bind (Lively-update _ (λ w. refl))
        λ was. search (lively_rules, Lively-send_webhook, Lively-finish_segment) depth 10)

Lively-process_segment : (s : Segment) (b : Bool) → Lively (process_segment s b)
unfolding process_segment
Lively-process_segment s b = search (lively_rules, Lively-analyze_saved) depth 16

pub Ahead-check_suspension : (t : ℕ) (start : World) → Preserves (Ahead t start) check_suspension
Ahead-check_suspension t start = Ahead-follows t start check_suspension Lively-check_suspension

pub Ahead-process_segment :
    (t : ℕ) (start : World) (s : Segment) (b : Bool)
    → Preserves (Ahead t start) (process_segment s b)
Ahead-process_segment t start s b =
    Ahead-follows t start (process_segment s b) (Lively-process_segment s b)

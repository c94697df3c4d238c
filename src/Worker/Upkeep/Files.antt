-- ===== src/Worker/Upkeep/Files.antt =====
-- internal/worker/worker.go: the files of the segments, from their saving to their removal.
use youtube_stream_tracker.Worker.Upkeep.Methods.{Preserves-finish_segment}
use youtube_stream_tracker.Worker.Upkeep.Loops.{Preserves-run}
use youtube_stream_tracker.Worker.Modes.{run}
use youtube_stream_tracker.Manifest.Segment.{Segment}
use youtube_stream_tracker.Worker.Upkeep.Protocol.{replay-∷, replay, upkeep}
use youtube_stream_tracker.Worker.Upkeep.{
  Preserves-is_shutdown_requested, Preserves-gets, Preserves-pure, Preserves-emit,
  Preserves-on_answer, Preserves->>, Preserves-if, Preserves-ask, Preserves-bind, Preserves-send,
  IsPlain, Upkeep, Preserves,
}
use youtube_stream_tracker.Worker.Actions.{get_state, send_webhook, now}
use youtube_stream_tracker.Worker.Segments.{
  finish_segment, is_error, accept_segment, analyze_saved, process_segment, check_suspension,
}
use youtube_stream_tracker.Prelude.{
  true, false, Bool, eq_refl, ℕ, ◌∙◌, str_eq, String, Option, if◌then◌else◌, refl, ◌≡◌,
}
use youtube_stream_tracker.Prelude.{none, some}
use youtube_stream_tracker.Worker.World.{
  no_data, stream_resumed, on_answer, WorkerError, ask, AnalysisResult, M, ◌>>◌, ◌>>=◌, pure, emit,
  EventData, World, Worker, Effect, EventType, Env, update, saved, analyzed, cleaned,
  cleaned_monitor, sent, reported, terminated, fetched, waiting_ticker,
}

-- The file that was saved and whose removal was not tried yet, and whether it was analysed: the next file is
-- saved only when there is none, each is analysed just once and then its removal tried, and the monitor's
-- directory is removed when there is none.
abbrev pub file_step : Option (String × Bool) → Effect → Option (Option (String × Bool))
file_step held (sent url p success) = some held
file_step held (reported s u) = some held
file_step held (terminated r) = some held
file_step held (fetched url) = some held
file_step held (waiting_ticker n) = some held
file_step none (saved path) = some (some (path, false))
file_step none cleaned_monitor = some none
file_step (some (held, false)) (analyzed path) =
    if str_eq held path then some (some (held, true)) else none
file_step (some (held, true)) (cleaned path removed) = if str_eq held path then some none else none
file_step _ _ = none

file_step-plain :
    (held : Option (String × Bool)) (x : Effect) → IsPlain x → file_step held x ≡ some held
file_step-plain held (sent url p success) h = refl
file_step-plain held (reported s u) h = refl
file_step-plain held (terminated r) h = refl
file_step-plain held (fetched u) h = refl
file_step-plain held (waiting_ticker n) h = refl
file_step-plain held (saved p) h = absurd h
file_step-plain held (analyzed p) h = absurd h
file_step-plain held (cleaned p removed) h = absurd h
file_step-plain held cleaned_monitor h = absurd h

-- The effects so far leave this file.
abbrev Holds : Option (String × Bool) → Env → World → Type 0
Holds held e w = replay file_step none w.trace ≡ some held

module _ {held : Option (String × Bool)} where
  keeper : Upkeep (Holds held)
  keeper = upkeep file_step none (λ v. held) file_step-plain (λ e w. refl) (λ g d v. refl)

  Holds-update : {A : Type 0} (f : Worker → Worker × A) → Preserves (Holds held) (update f)
  unfolding update
  Holds-update f = record { at = λ e w h. h }

  Holds-emit : (x : Effect) → file_step held x ≡ some held → Preserves (Holds held) (emit x)
  unfolding emit
  Holds-emit x q = record { at = λ e w h. replay-∷ file_step none held x w.trace h ∙ q }

  Holds-send_webhook : (t : EventType) (d : EventData) → Preserves (Holds held) (send_webhook t d)
  Holds-send_webhook t d = Preserves-send keeper t d λ url p b same. Holds-emit (sent url p b) refl

  Holds-check_suspension : Preserves (Holds held) check_suspension
  unfolding check_suspension now
  Holds-check_suspension = Preserves-bind (Preserves-ask keeper _) λ t.
      Preserves-bind (Holds-update _)
        λ due. Preserves-if due (Holds-send_webhook _ _) (Preserves-pure _)

-- What `analyze_saved` does with the answer of the analysis.
abbrev analyzed_segment : Segment → Bool → Option AnalysisResult → M (Option WorkerError)
analyzed_segment s is_rebaseline answer =
    on_answer answer (pure (some WorkerError.analyze_segment)) λ result. do
      t ← now
      was_suspended ← update (accept_segment t s is_rebaseline)
      if was_suspended
          then (do
            send_webhook stream_resumed no_data
            st ← get_state
            if is_error st
                then pure (some WorkerError.webhook_delivery_failed)
                else finish_segment s result)
          else finish_segment s result

Holds-analyzed_segment :
    {held : Option (String × Bool)} (s : Segment) (b : Bool) (answer : Option AnalysisResult)
    → Preserves (Holds held) (analyzed_segment s b answer)
unfolding now get_state
Holds-analyzed_segment s b answer = Preserves-on_answer answer (Preserves-pure _) λ r.
    Preserves-bind (Preserves-ask keeper _) λ t. Preserves-bind (Holds-update _) λ was.
      Preserves-if was
        (Preserves->> (Holds-send_webhook _ _) (
          Preserves-bind (Preserves-gets _)
            λ st. Preserves-if _ (Preserves-pure _) (Preserves-finish_segment keeper s r)))
        (Preserves-finish_segment keeper s r)

-- A command that takes one file to another.
record Takes {A : Type 0} (before after : Option (String × Bool)) (m : M A) : Type 0 where
  at : (e : Env) (w : World) → Holds before e w → Holds after e (m e w).1

Takes-bind :
    {A B : Type 0} {a b c : Option (String × Bool)} (m : M A) (f : A → M B)
    → Takes a b m
    → ((x : A) → Takes b c (f x))
    → Takes a c (m >>= f)
unfolding ◌>>=◌
Takes-bind m f t u = record { at = λ e w h. (u (m e w).0).at e (m e w).1 (t.at e w h) }

Takes->> :
    {A B : Type 0} {a b c : Option (String × Bool)} (m : M A) (k : M B)
    → Takes a b m
    → Takes b c k
    → Takes a c (m >> k)
unfolding ◌>>◌
Takes->> m k t u = record { at = λ e w h. u.at e (m e w).1 (t.at e w h) }

Takes-kept :
    {A : Type 0} {held : Option (String × Bool)} (m : M A)
    → Preserves (Holds held) m
    → Takes held held m
Takes-kept m p = record { at = p.at }

Takes-emit :
    {before after : Option (String × Bool)} (x : Effect)
    → file_step before x ≡ some after
    → Takes before after (emit x)
unfolding emit
Takes-emit {before} x q = record { at = λ e w h. replay-∷ file_step none before x w.trace h ∙ q }

Takes-analyze_saved :
    (s : Segment) (b : Bool) (path : String)
    → Takes (some (path, false)) (some (path, true)) (analyze_saved s b path)
unfolding analyze_saved
Takes-analyze_saved s b path = Takes-bind _ _ (Takes-kept _ (Preserves-ask keeper _)) λ answer.
    Takes->> _ _ (Takes-emit (analyzed path) (rw (eq_refl path) refl))
      (Takes-kept _ (Holds-analyzed_segment s b answer))

-- A file is saved and analysed, and its removal tried.
Takes-file :
    (s : Segment) (b : Bool) (path : String)
    → Takes none none (
        emit (saved path)
        >> (analyze_saved s b path >>= λ r.
            ask (λ e n. e.segment_removed n) >>= λ removed. emit (cleaned path removed) >> pure r))
Takes-file s b path = Takes->> _ _ (Takes-emit (saved path) refl) (
    Takes-bind _ _ (Takes-analyze_saved s b path) λ r.
      Takes-bind _ _ (Takes-kept _ (Preserves-ask keeper _)) λ removed.
        Takes->> _ _ (Takes-emit (cleaned path removed) (rw (eq_refl path) refl))
          (Takes-kept _ (Preserves-pure r)))

Holds-file :
    (s : Segment) (b : Bool) (path : String)
    → Preserves (Holds none) (
        emit (saved path)
        >> (analyze_saved s b path >>= λ r.
            ask (λ e n. e.segment_removed n) >>= λ removed. emit (cleaned path removed) >> pure r))
Holds-file s b path = record { at = (Takes-file s b path).at }

Holds-process_segment : (s : Segment) (b : Bool) → Preserves (Holds none) (process_segment s b)
unfolding process_segment
Holds-process_segment s b = Preserves-bind (Preserves-ask keeper _) λ bytes.
    Preserves->> (Preserves-emit keeper _ tt) (
      Preserves-on_answer bytes (Preserves-pure _) λ x.
        Preserves-bind (Preserves-is_shutdown_requested keeper) λ stopping.
          Preserves-if stopping (Preserves-pure _) (
            Preserves-bind (Preserves-ask keeper _)
              λ answer. Preserves-on_answer answer (Preserves-pure _) (Holds-file s b)))

-- Where the files saved before `Run` were all analysed and their removal tried, so are those saved after it: a
-- file is saved only when no other one is in use, it is analysed just once, whatever comes of that, its
-- removal is tried just once after that, and the removal of the monitor's directory is tried only when no
-- file is in use. A removal may fail, and then leaves its file.
pub run-file_step :
    (fuel : ℕ) (e : Env) (w : World)
    → replay file_step none w.trace ≡ some none
    → replay file_step none (run fuel e w).1.trace ≡ some none
run-file_step fuel =
    (Preserves-run keeper Holds-check_suspension Holds-process_segment
      (Holds-emit cleaned_monitor refl) fuel).at

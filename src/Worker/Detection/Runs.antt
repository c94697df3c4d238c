-- ===== src/Worker/Detection/Runs.antt =====
-- The events of blackout and silence detection (internal/worker/worker.go) over many segments.
use youtube_stream_tracker.Worker.Detection.{process_black_detection, process_silence_detection}
use youtube_stream_tracker.Worker.Detection.Refines.{
  process_black-step, process_silence-step, black_event, silence_event, silence_alarm, black_alarm,
}
use youtube_stream_tracker.Worker.Delivery.{sent_types}
use youtube_stream_tracker.Worker.World.{◌>>◌, World, Env, EventType, M, Worker, pure}
use youtube_stream_tracker.Prelude.{
  sym, ap₂, ap, ◌+◌, ◌∙◌, none, append_assoc, reverse-cons, some, Option, reverse, ◌∷◌, ◌++◌, [],
  map, ◌≡◌, List, ℕ, Bool, refl,
}
use youtube_stream_tracker.Worker.Alarm.{
  feed-readings, feed-Alternates, signals, raises, Alternates, readings, IsClear, IsSound,
  cons_signal, step, Signal, Alarm, feed,
}

-- One segment after the other, with whatever becomes of the webhooks.
unfoldable pub detect : (Bool → ℕ → M (Unit {0})) → List (Bool × ℕ) → M (Unit {0})
detect process [] = pure tt
detect process ((b, d) ∷ rs) = process b d >> detect process rs

reverse-cons_signal :
    (event : Signal → EventType) (s : Option Signal) (ss : List Signal) (l : List EventType)
    → reverse (map event (cons_signal s ss)) ++ l
      ≡ reverse (map event ss) ++ (map event (cons_signal s []) ++ l)
reverse-cons_signal event none ss l = refl
reverse-cons_signal event (some s) ss l =
    rw (reverse-cons (event s) (map event ss))
      (append_assoc (reverse (map event ss)) (event s ∷ []) l)

-- What `process` to one segment, it does to all.
module _ (view : Worker → Alarm) (event : Signal → EventType) (process : Bool → ℕ → M (Unit {0}))
    (process-step : (b : Bool) (d : ℕ) (e : Env) (w : World)
      → (view (process b d e w).1.worker ≡ (step (b, d) (view w.worker)).0)
        × (sent_types (process b d e w).1.trace
            ≡ map event (cons_signal (step (b, d) (view w.worker)).1 [])
              ++ sent_types w.trace)) where
  detect-feed :
      (rs : List (Bool × ℕ)) (e : Env) (w : World)
      → let w' = (detect process rs e w).1 in
        let a = view w.worker in
        (view w'.worker ≡ (feed rs a).0)
        × (sent_types w'.trace ≡ reverse (map event (feed rs a).1) ++ sent_types w.trace)
  unfolding detect feed pure ◌>>◌
  detect-feed [] e w = (refl, refl)
  detect-feed ((b, d) ∷ rs) e w =
      let w1 : World = (process b d e w).1 in
      let a : Alarm = view w.worker in
      let (p, q) = process-step b d e w in
      let (p', q') = detect-feed rs e w1 in
      (
        p' ∙ ap (λ v. (feed rs v).0) p,
        q'
            ∙ ap₂ (λ v l. reverse (map event (feed rs v).1) ++ l) p q
            ∙ sym (
                reverse-cons_signal event (step (b, d) a).1 (feed rs (step (b, d) a).0).1
                  (sent_types w.trace)),
      )

  -- Runs of bad segments, each with a good one behind it.
  detect-readings :
      (runs : List (List ℕ × ℕ)) (e : Env) (w : World)
      → IsClear (view w.worker)
      → let w' = (detect process (readings runs) e w).1 in
        (sent_types w'.trace
          ≡ reverse (map event (signals (view w.worker).threshold runs)) ++ sent_types w.trace)
        × IsClear (view w'.worker)
  detect-readings runs e w h =
      let (p, q) = detect-feed (readings runs) e w in
      let (s, c) = feed-readings runs (view w.worker) h in
      (q ∙ ap (λ ss. reverse (map event ss) ++ sent_types w.trace) s, rw p c)

  detect-Alternates :
      (rs : List (Bool × ℕ)) (e : Env) (w : World)
      → IsSound (view w.worker)
      → let w' = (detect process rs e w).1 in
        (ss : List Signal) × (sent_types w'.trace ≡ reverse (map event ss) ++ sent_types w.trace)
        × Alternates (view w.worker).sent ss
        × ((view w'.worker).count ≡ raises ss + (view w.worker).count)
  detect-Alternates rs e w h =
      let (p, q) = detect-feed rs e w in
      let (s, c) = feed-Alternates rs (view w.worker) h in
      ((feed rs (view w.worker)).1, q, s, ap (λ (a : Alarm). a.count) p ∙ c)

-- From a worker with no alert open and no black run under way, and whatever becomes of the webhooks:
-- every run of fully black segments of at least the threshold's
-- length sends alert.blackout once and, at the segment behind it, alert.blackout_recovered; a
-- shorter run sends nothing; and no other event is sent. At the end there is again no alert open.
pub black_detection-runs :
    (runs : List (List ℕ × ℕ)) (e : Env) (w : World)
    → IsClear (black_alarm w.worker)
    → let w' = (detect process_black_detection (readings runs) e w).1 in
      (sent_types w'.trace
        ≡ reverse (map black_event (signals w.worker.cfg.blackout_threshold runs))
          ++ sent_types w.trace)
      × IsClear (black_alarm w'.worker)
black_detection-runs =
    detect-readings black_alarm black_event process_black_detection process_black-step

-- From a worker with no alert open and no silent run under way, and whatever becomes of the webhooks:
-- every run of fully silent segments of at least the threshold's
-- length sends alert.silence once and, at the segment behind it, alert.silence_recovered; a
-- shorter run sends nothing; and no other event is sent.
pub silence_detection-runs :
    (runs : List (List ℕ × ℕ)) (e : Env) (w : World)
    → IsClear (silence_alarm w.worker)
    → let w' = (detect process_silence_detection (readings runs) e w).1 in
      (sent_types w'.trace
        ≡ reverse (map silence_event (signals w.worker.cfg.silence_threshold runs))
          ++ sent_types w.trace)
      × IsClear (silence_alarm w'.worker)
silence_detection-runs =
    detect-readings silence_alarm silence_event process_silence_detection process_silence-step

-- From a state in which a blackout that was alerted is still under way, or none was alerted:
-- whatever the segments and whatever becomes of the webhooks, the events sent alternate between
-- alert.blackout and alert.blackout_recovered, and `blackout_events` counts the alerts.
pub black_detection-Alternates :
    (rs : List (Bool × ℕ)) (e : Env) (w : World)
    → IsSound (black_alarm w.worker)
    → let w' = (detect process_black_detection rs e w).1 in
      (ss : List Signal) × (sent_types w'.trace
        ≡ reverse (map black_event ss) ++ sent_types w.trace)
      × Alternates w.worker.blackout_alert_sent ss
      × (w'.worker.blackout_events ≡ raises ss + w.worker.blackout_events)
black_detection-Alternates =
    detect-Alternates black_alarm black_event process_black_detection process_black-step

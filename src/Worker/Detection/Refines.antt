-- ===== src/Worker/Detection/Refines.antt =====
-- The detection of internal/worker/worker.go does what an alarm does, for blackout and for silence.
use youtube_stream_tracker.Worker.Delivery.{send_webhook-sent_types, sent_types}
use youtube_stream_tracker.Worker.Actions.{now}
use youtube_stream_tracker.Worker.Detection.{
  process_silence_detection, black_update, process_black_detection, notify, silence_update,
}
use youtube_stream_tracker.Worker.Frame.{
  advance-trace, advance-data_of, send_webhook-HasData, Keeps-pure, data_of, HasData, Keeps,
}
use youtube_stream_tracker.Prelude.{
  ap₂, ◌∙◌, ap, ◌++◌, refl, false, none, true, ◌∷◌, arith, map, some, ◌≡◌, [], Bool, List, ℕ,
  is_some, Option,
}
use youtube_stream_tracker.Worker.World.{
  advance, alert_blackout_recovered, alert_silence_recovered, alert_silence, EventData,
  alert_blackout, pure, update, ◌>>=◌, ask, World, Env, Worker, EventType,
}
use youtube_stream_tracker.Worker.Alarm.{
  Alarm, Signal, raised, recovered, bad, good, step, cons_signal,
}

-- The alarm that the worker's fields hold.
abbrev pub black_alarm : Worker → Alarm
black_alarm w = record {
  threshold = w.cfg.blackout_threshold;
  sent = w.blackout_alert_sent;
  active = is_some w.blackout_start;
  total = w.consecutive_black;
  count = w.blackout_events;
}

abbrev pub silence_alarm : Worker → Alarm
silence_alarm w = record {
  threshold = w.cfg.silence_threshold;
  sent = w.silence_alert_sent;
  active = is_some w.silence_start;
  total = w.consecutive_silence;
  count = w.silence_events;
}

abbrev pub black_event : Signal → EventType
black_event raised = alert_blackout
black_event recovered = alert_blackout_recovered

abbrev pub silence_event : Signal → EventType
silence_event raised = alert_silence
silence_event recovered = alert_silence_recovered

abbrev event_types : Option (EventType × EventData) → List EventType
event_types none = []
event_types (some (t, d)) = t ∷ []

black_update-step :
    (t : ℕ) (b : Bool) (d : ℕ) (w : Worker)
    → (black_alarm (black_update t b d w).0 ≡ (step (b, d) (black_alarm w)).0)
      × (event_types (black_update t b d w).1
          ≡ map black_event (cons_signal (step (b, d) (black_alarm w)).1 []))
unfolding black_update bad good
black_update-step t true d w = ground arith
black_update-step t false d w = ground arith

silence_update-step :
    (t : ℕ) (b : Bool) (d : ℕ) (w : Worker)
    → (silence_alarm (silence_update t b d w).0 ≡ (step (b, d) (silence_alarm w)).0)
      × (event_types (silence_update t b d w).1
          ≡ map silence_event (cons_signal (step (b, d) (silence_alarm w)).1 []))
unfolding silence_update bad good
silence_update-step t true d w = ground arith
silence_update-step t false d w = ground arith

notify-sent_types :
    (x : Option (EventType × EventData)) (e : Env) (w : World)
    → sent_types (notify x e w).1.trace ≡ event_types x ++ sent_types w.trace
unfolding notify pure
notify-sent_types none e w = refl
notify-sent_types (some (t, d)) e w = send_webhook-sent_types t d e w

notify-HasData : {v : Worker} (x : Option (EventType × EventData)) → Keeps (HasData v) (notify x)
unfolding notify
notify-HasData none = Keeps-pure tt
notify-HasData (some (t, d)) = send_webhook-HasData t d

notify-data_of :
    (x : Option (EventType × EventData)) (e : Env) (w : World)
    → data_of (notify x e w).1.worker ≡ data_of w.worker
notify-data_of x e w = ((notify-HasData x).at e w (record { data_eq = refl })).data_eq

pub process_black-step :
    (b : Bool) (d : ℕ) (e : Env) (w : World)
    → let w' = (process_black_detection b d e w).1 in
      let a = black_alarm w.worker in
      (black_alarm w'.worker ≡ (step (b, d) a).0)
      × (sent_types w'.trace
          ≡ map black_event (cons_signal (step (b, d) a).1 []) ++ sent_types w.trace)
unfolding process_black_detection now update ask ◌>>=◌
process_black-step b d e w =
    let t : ℕ = e.clock w.tick in
    let v : Worker = (advance e w).worker in
    let x : Option (EventType × EventData) = (black_update t b d v).1 in
    let w1 : World = record (advance e w) { worker = (black_update t b d v).0 } in
    let same : black_alarm v ≡ black_alarm w.worker = ap black_alarm (advance-data_of e w) in
    let (p, q) = black_update-step t b d v in
    (
      ap black_alarm (notify-data_of x e w1) ∙ p ∙ ap (λ a. (step (b, d) a).0) same,
      notify-sent_types x e w1
          ∙ ap₂ ◌++◌ (q ∙ ap (λ a. map black_event (cons_signal (step (b, d) a).1 [])) same)
              (ap sent_types (advance-trace e w)),
    )

pub process_silence-step :
    (b : Bool) (d : ℕ) (e : Env) (w : World)
    → let w' = (process_silence_detection b d e w).1 in
      let a = silence_alarm w.worker in
      (silence_alarm w'.worker ≡ (step (b, d) a).0)
      × (sent_types w'.trace
          ≡ map silence_event (cons_signal (step (b, d) a).1 []) ++ sent_types w.trace)
unfolding process_silence_detection now update ask ◌>>=◌
process_silence-step b d e w =
    let t : ℕ = e.clock w.tick in
    let v : Worker = (advance e w).worker in
    let x : Option (EventType × EventData) = (silence_update t b d v).1 in
    let w1 : World = record (advance e w) { worker = (silence_update t b d v).0 } in
    let same : silence_alarm v ≡ silence_alarm w.worker = ap silence_alarm (advance-data_of e w) in
    let (p, q) = silence_update-step t b d v in
    (
      ap silence_alarm (notify-data_of x e w1) ∙ p ∙ ap (λ a. (step (b, d) a).0) same,
      notify-sent_types x e w1
          ∙ ap₂ ◌++◌ (q ∙ ap (λ a. map silence_event (cons_signal (step (b, d) a).1 [])) same)
              (ap sent_types (advance-trace e w)),
    )

-- ===== src/Worker/Detection.antt =====
-- internal/worker/worker.go: blackout and silence, from the analysis of one segment after the other.
pub mod Refines
pub mod Runs
-- The clock is read once before the critical section, which reads it at most once.
use youtube_stream_tracker.Prelude.{
  ℕ, suc, ◌+◌, ◌/◌, Bool, true, false, not, ◌&&◌, Option, none, some, is_some, get_or, leb,
  if◌then◌else◌,
}
use youtube_stream_tracker.Manifest.Segment.{Segment}
use youtube_stream_tracker.Worker.World.{
  EventType, alert_blackout, alert_blackout_recovered, alert_silence, alert_silence_recovered,
  EventData, alert, recovered, Worker, M, ◌>>=◌, pure, update,
}
use youtube_stream_tracker.Worker.Actions.{now, send_webhook}

-- `segmentInfoPayload`: sequence and duration.
unfoldable pub segment_info : Option Segment → Option (ℕ × ℕ)
segment_info none = none
segment_info (some s) = some (s.sequence, s.duration)

unfoldable pub black_update :
    (now : ℕ)
    → (fully_black : Bool) → (segment_duration : ℕ) → Worker
    → Worker × Option (EventType × EventData)
black_update now true d w =
    let start : ℕ = get_or w.blackout_start now in
    let total : ℕ = w.consecutive_black + d in
    let w' : Worker = record w { consecutive_black = total; blackout_start = some start } in
    if not w.blackout_alert_sent && leb w.cfg.blackout_threshold total
    then (
      record w' { blackout_events = suc w.blackout_events; blackout_alert_sent = true },
      some (
        alert_blackout,
        alert total start (w.cfg.blackout_threshold / 1000) (segment_info w.last_segment_info),
      ),
    )
    else (w', none)
black_update now false d w =
    let w' : Worker = record w { consecutive_black = 0; blackout_start = none } in
    if w.blackout_alert_sent && is_some w.blackout_start
    then (
      record w' { blackout_alert_sent = false },
      some (
        alert_blackout_recovered,
        recovered w.consecutive_black (get_or w.blackout_start now) now,
      ),
    )
    else (w', none)

unfoldable pub silence_update :
    (now : ℕ)
    → (fully_silent : Bool) → (segment_duration : ℕ) → Worker
    → Worker × Option (EventType × EventData)
silence_update now true d w =
    let start : ℕ = get_or w.silence_start now in
    let total : ℕ = w.consecutive_silence + d in
    let w' : Worker = record w { consecutive_silence = total; silence_start = some start } in
    if not w.silence_alert_sent && leb w.cfg.silence_threshold total
    then (
      record w' { silence_events = suc w.silence_events; silence_alert_sent = true },
      some (
        alert_silence,
        alert total start (w.cfg.silence_threshold / 1000) (segment_info w.last_segment_info),
      ),
    )
    else (w', none)
silence_update now false d w =
    let w' : Worker = record w { consecutive_silence = 0; silence_start = none } in
    if w.silence_alert_sent && is_some w.silence_start
    then (
      record w' { silence_alert_sent = false },
      some (
        alert_silence_recovered,
        recovered w.consecutive_silence (get_or w.silence_start now) now,
      ),
    )
    else (w', none)

unfoldable pub notify : Option (EventType × EventData) → M (Unit {0})
notify none = pure tt
notify (some (event_type, event_data)) = send_webhook event_type event_data

unfoldable pub process_black_detection : Bool → ℕ → M (Unit {0})
process_black_detection fully_black segment_duration = do
  t ← now
  event ← update (black_update t fully_black segment_duration)
  notify event

unfoldable pub process_silence_detection : Bool → ℕ → M (Unit {0})
process_silence_detection fully_silent segment_duration = do
  t ← now
  event ← update (silence_update t fully_silent segment_duration)
  notify event

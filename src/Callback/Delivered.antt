-- ===== src/Callback/Delivered.antt =====
-- internal/worker/callback.go and internal/api/handlers.go: what a worker's report changes at the gateway.
use youtube_stream_tracker.Store.Objects.{health_is_empty, stream_is_empty}
use youtube_stream_tracker.Prelude.Int.{pos, ℤ}
use youtube_stream_tracker.Handlers.{StatisticsRequest, UpdateStatusRequest, HealthRequest}
use youtube_stream_tracker.Model.{MonitorStats, MonitorStatus, HealthStatus, StreamStatus}
use youtube_stream_tracker.Callback.{StatusRequest, status_request}
use youtube_stream_tracker.Worker.World.{StatusUpdate}
use youtube_stream_tracker.Handlers.Internal.{merge_stats}
use youtube_stream_tracker.Prelude.{
  get_or, not, ◌||◌, arith, refl, none, ltb, some, ℕ, Option, if◌then◌else◌, ◌≡◌,
}

-- A number as it is received: `omitempty` leaves out 0.
abbrev pub received_number : ℕ → Option ℤ
received_number n = if ltb 0 n then some (pos n) else none

abbrev pub received_statistics : Option (ℕ × ℕ × ℕ) → Option StatisticsRequest
received_statistics none = none
received_statistics (some (total, blackouts, silences)) = some (record {
  total_segments_analyzed = received_number total;
  blackout_events = received_number blackouts;
  silence_events = received_number silences;
})

abbrev pub received_health : Option (HealthStatus × HealthStatus) → Option HealthRequest
received_health none = none
received_health (some (video, audio)) = some (record { video = video; audio = audio })

-- The request that the gateway reads from the JSON of a worker's.
unfoldable pub received : StatusRequest → UpdateStatusRequest
received req = record {
  status = req.status;
  stream_status = req.stream_status;
  health = received_health req.health;
  statistics = received_statistics req.statistics;
}

-- What is reported, if it says something, and else what was known.
abbrev pub newest_count : ℕ → ℤ → ℤ
newest_count n old = if ltb 0 n then pos n else old

abbrev pub newest_health : HealthStatus → HealthStatus → HealthStatus
newest_health h old = if health_is_empty h then old else h

abbrev pub newest_stream : StreamStatus → StreamStatus → StreamStatus
newest_stream s old = if stream_is_empty s then old else s

total_received :
    (a b c : ℕ) (old : ℤ)
    → (elim (received_statistics (if ltb 0 a || ltb 0 b || ltb 0 c then some (a, b, c) else none))
        as (λ o. ℤ) [ none ↦ old | some r ↦ get_or r.total_segments_analyzed old ])
      ≡ newest_count a old
total_received a b c old = ground arith

blackouts_received :
    (a b c : ℕ) (old : ℤ)
    → (elim (received_statistics (if ltb 0 a || ltb 0 b || ltb 0 c then some (a, b, c) else none))
        as (λ o. ℤ) [ none ↦ old | some r ↦ get_or r.blackout_events old ])
      ≡ newest_count b old
blackouts_received a b c old = ground arith

silences_received :
    (a b c : ℕ) (old : ℤ)
    → (elim (received_statistics (if ltb 0 a || ltb 0 b || ltb 0 c then some (a, b, c) else none))
        as (λ o. ℤ) [ none ↦ old | some r ↦ get_or r.silence_events old ])
      ≡ newest_count c old
silences_received a b c old = ground arith

video_received :
    (v a old : HealthStatus)
    → (elim (received_health
          (if not (health_is_empty v) || not (health_is_empty a) then some (v, a) else none))
        as (λ o. HealthStatus) [
          | none ↦ old
          | some r ↦ if health_is_empty r.video then old else r.video
        ])
      ≡ newest_health v old
video_received v a old = ground arith

audio_received :
    (v a old : HealthStatus)
    → (elim (received_health
          (if not (health_is_empty v) || not (health_is_empty a) then some (v, a) else none))
        as (λ o. HealthStatus) [
          | none ↦ old
          | some r ↦ if health_is_empty r.audio then old else r.audio
        ])
      ≡ newest_health a old
audio_received v a old = ground arith

-- A worker's update, sent as JSON and merged at the gateway, replaces of the monitor's statistics exactly the
-- counts that are not 0 and the words that are not empty, whatever else is in the update, and notes the time.
pub merge_stats-received :
    (status : MonitorStatus) (u : StatusUpdate) (now : ℕ) (st : MonitorStats)
    → merge_stats (received (status_request status (some u))) now st ≡ record {
      monitor_id = st.monitor_id;
      total_segments = newest_count u.total_segments st.total_segments;
      blackout_events = newest_count u.blackout_events st.blackout_events;
      silence_events = newest_count u.silence_events st.silence_events;
      last_check_at = some now;
      video_health = newest_health u.video_health st.video_health;
      audio_health = newest_health u.audio_health st.audio_health;
      stream_status = newest_stream u.stream_status st.stream_status;
    }
unfolding merge_stats received status_request
merge_stats-received status u now st =
    rw
      (
        total_received u.total_segments u.blackout_events u.silence_events st.total_segments,
        blackouts_received u.total_segments u.blackout_events u.silence_events st.blackout_events,
        silences_received u.total_segments u.blackout_events u.silence_events st.silence_events,
        video_received u.video_health u.audio_health st.video_health,
        audio_received u.video_health u.audio_health st.audio_health,
      )
      refl

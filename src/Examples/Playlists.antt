-- ===== src/Examples/Playlists.antt =====
-- internal/manifest/manifest.go at concrete playlists.
use youtube_stream_tracker.Manifest.Fetch.{fetch_segment, fetch_segment-whole, whole}
use youtube_stream_tracker.Manifest.Timeline.{read_timeline-starts, last_duration, starts}
use youtube_stream_tracker.Manifest.Mpd.{at_start, TimelineS, read_timeline, Progress}
use youtube_stream_tracker.Manifest.Playlist.{DecodedPlaylist, Variant, Web}
use youtube_stream_tracker.Prelude.{
  ℕ, arith, last_or, ◌%◌, ◌^◌, true, List, refl, ◌-◌, ◌≡◌, false, some, length, [], ◌∷◌,
}

abbrev low : Variant
low = record { uri = "low.m3u8"; bandwidth = 300 }

abbrev high : Variant
high = record { uri = "high.m3u8"; bandwidth = 900 }

-- A master playlist that leads to itself.
abbrev circular : Web
circular = record {
  fetch = λ url. some (DecodedPlaylist.master (high ∷ low ∷ []));
  resolve = λ base uri. some uri;
  is_dash = λ url. false;
}

-- Three segments of two seconds, and from 100 on one of five.
abbrev timeline : List TimelineS
timeline = record { t = 0; d = 2; r = 2 } ∷ record { t = 100; d = 5; r = 2 ^ 64 - 1 } ∷ []

read_timeline-starts_example :
    (q : Progress) × (read_timeline true timeline at_start ≡ some q)
    × (q.segments_count ≡ length (starts true 0 timeline) % 2 ^ 64)
    × (q.time_value ≡ last_or 0 (starts true 0 timeline) % 2 ^ 64)
    × (q.duration ≡ last_duration 0 timeline)
read_timeline-starts_example = read_timeline-starts timeline (refl, (refl, tt))

abbrev bytes : List ℕ
bytes = 71 ∷ 64 ∷ 0 ∷ []

fetch_segment-whole_example : fetch_segment 2 (some (200, bytes)) ≡ whole 2 bytes
fetch_segment-whole_example = fetch_segment-whole 2 bytes (omega arith)

-- ===== src/Examples/Networks.antt =====
-- internal/validation/url.go, internal/ffmpeg/ffmpeg.go and internal/worker/callback.go at a name with a
-- private address, a segment and a report.
use youtube_stream_tracker.Callback.{status_request}
use youtube_stream_tracker.Callback.Delivered.{merge_stats-received, received}
use youtube_stream_tracker.Prelude.Int.{pos}
use youtube_stream_tracker.Handlers.Internal.{merge_stats}
use youtube_stream_tracker.Model.{MonitorStatus, HealthStatus, StreamStatus, MonitorStats}
use youtube_stream_tracker.Worker.World.{StatusUpdate}
use youtube_stream_tracker.Validation.Outbound.{validate_outbound_url-outside, LeadsOutside}
use youtube_stream_tracker.Validation.Dialling.{dial_ips-IsPublic, IsPublic, publics}
use youtube_stream_tracker.Validation.{
  Url, Ip, Network, dial_ips, check_resolved, check_host, validate_outbound_url, check_parsed,
  is_private_ip,
}
use youtube_stream_tracker.Prelude.{
  All, str_eq, none, true, some, false, ◌∷◌, if◌then◌else◌, ◌⊎◌, ◌≡◌, [], refl,
}

abbrev public_ip : Ip
public_ip = record {
  text = "93.184.216.34";
  is_global_unicast = true;
  is_loopback = false;
  is_private = false;
  is_link_local_multicast = false;
  is_link_local_unicast = false;
  is_multicast = false;
  is_unspecified = false;
}

abbrev private_ip : Ip
private_ip = record public_ip { text = "10.0.0.1"; is_private = true }

-- The name inside resolves to a private address as well.
abbrev pub network : Network
network = record {
  parse = λ s. some (record { scheme = "https"; hostname = s });
  parse_ip = λ s. none;
  lookup_ip_addr = λ s.
      if str_eq s "inside"
      then some (some private_ip ∷ some public_ip ∷ [])
      else some (some public_ip ∷ []);
  split_host_port = λ s. some (s, "443");
  dial = λ ip port. true;
}

dial_ips-IsPublic_example :
    (dial_ips network false "443" (some private_ip ∷ some public_ip ∷ [])
      ≡ dial_ips network true "443" (publics (some private_ip ∷ some public_ip ∷ [])))
    × All IsPublic ((dial_ips network false "443" (some private_ip ∷ some public_ip ∷ [])).1)
dial_ips-IsPublic_example = dial_ips-IsPublic network "443" (some private_ip ∷ some public_ip ∷ [])

pub accepted : validate_outbound_url network "outside" false ≡ none
unfolding validate_outbound_url check_parsed check_host check_resolved is_private_ip
accepted = refl

validate_outbound_url-outside_example :
    (u : Url) × (network.parse "outside" ≡ some u)
    × ((u.scheme ≡ "http") ⊎ (u.scheme ≡ "https"))
    × (str_eq u.hostname "" ≡ false)
    × LeadsOutside network u.hostname (network.parse_ip u.hostname)
validate_outbound_url-outside_example = validate_outbound_url-outside network "outside" accepted

abbrev update : StatusUpdate
update = record {
  stream_status = StreamStatus.live;
  video_health = HealthStatus.ok;
  audio_health = HealthStatus.other "";
  total_segments = 3;
  blackout_events = 0;
  silence_events = 1;
}

abbrev stats : MonitorStats
stats = record {
  monitor_id = "m1";
  total_segments = pos 2;
  blackout_events = pos 1;
  silence_events = pos 0;
  last_check_at = none;
  video_health = HealthStatus.unknown;
  audio_health = HealthStatus.ok;
  stream_status = StreamStatus.unknown;
}

merge_stats-received_example :
    merge_stats (received (status_request MonitorStatus.monitoring (some update))) 60 stats
    ≡ record {
      monitor_id = "m1";
      total_segments = pos 3;
      blackout_events = pos 1;
      silence_events = pos 1;
      last_check_at = some 60;
      video_health = HealthStatus.ok;
      audio_health = HealthStatus.ok;
      stream_status = StreamStatus.live;
    }
merge_stats-received_example = merge_stats-received MonitorStatus.monitoring update 60 stats

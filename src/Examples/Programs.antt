-- ===== src/Examples/Programs.antt =====
-- internal/worker/worker.go, internal/ytdlp/ytdlp.go and internal/manifest/manifest.go at a stream with one
-- segment.
use youtube_stream_tracker.Worker.Upkeep.Suspension.{run-suspension_step}
use youtube_stream_tracker.Worker.Upkeep.Announcement.{suspension_step}
use youtube_stream_tracker.Ytdlp.Answers.{get_manifest_url-answered}
use youtube_stream_tracker.Worker.Upkeep.Files.{run-file_step, file_step}
use youtube_stream_tracker.Worker.Upkeep.Protocol.{replay}
use youtube_stream_tracker.Worker.Modes.{run}
use youtube_stream_tracker.Examples.Workers.{start, outside}
use youtube_stream_tracker.Manifest.Reference.{
  Url, resolve_url-IsResolved, IsResolved, resolve_url, Urls, is_abs,
}
use youtube_stream_tracker.Ytdlp.{answered, new_client, get_manifest_url, Runner}
use youtube_stream_tracker.Prelude.{
  if◌then◌else◌, or_else, ◌⊎◌, false, str_append, true, str_eq, ◌≡◌, refl, ◌≢◌, none, some,
}
use youtube_stream_tracker.Worker.World.{new_worker, Env}
use youtube_stream_tracker.Manifest.Segment.{Segment, MediaType}

abbrev segment : Segment
segment = record {
  url = "https://example.com/1.ts";
  duration = 5000;
  sequence = 1;
  media_type = MediaType.hls;
}

-- The segment is there again at each poll.
abbrev watching : Env
watching = record (outside true) {
  end_list = λ n. some false;
  latest_segment = λ n. some segment;
  segment_data = λ n. some "bytes";
  segment_path = λ n. some "/tmp/segments/mon-1/1.ts";
  segment_removed = λ n. true;
  analysis = λ n. some (record { fully_black = true; fully_silent = false });
}

run-file_step_example : replay file_step none (run 4 watching start).1.trace ≡ some none
run-file_step_example = run-file_step 4 watching start refl

run-suspension_step_example :
    let w' = (run 4 watching start).1 in
    replay suspension_step false w'.trace ≡ some w'.worker.suspended_alert_sent
unfolding new_worker
run-suspension_step_example = run-suspension_step 4 watching start refl

abbrev sample_runner : Runner
sample_runner = record {
  run = λ path args. if str_eq path "yt-dlp" then none else some "https://example.com/live.m3u8";
  trim_space = λ s. s;
  unmarshal_info = λ s. none;
}

get_manifest_url-answered_example :
    (get_manifest_url sample_runner (new_client "" "" "" "") "u"
      ≡ or_else
          (answered sample_runner (new_client "" "" "" "") none)
          (answered sample_runner (new_client "" "" "" "") (some "https://example.com/live.m3u8")))
    × (get_manifest_url sample_runner (new_client "" "" "" "") "u" ≢ some "")
unfolding new_client
get_manifest_url-answered_example =
    get_manifest_url-answered sample_runner (new_client "" "" "" "") "u"

abbrev base : Url
base = record {
  scheme = "https";
  user = "";
  host = "example.com";
  path = "/live/a.m3u8";
  raw_query = "t=1";
  fragment = "";
}

abbrev sample_urls : Urls
sample_urls = record {
  parse = λ s. some (record base { scheme = ""; host = ""; path = s; raw_query = "" });
  print = λ u. str_append u.host u.path;
  join = λ a b. str_append a b;
  dir = λ p. "/live/";
  contains = λ s t. false;
  to_lower = λ s. s;
  ends_with = λ s t. false;
}

abbrev reference : Url
reference = record base { scheme = ""; host = ""; path = "1.ts"; raw_query = "" }

resolve_url-IsResolved_example :
    ((sample_urls.parse "1.ts" ≡ none) × (resolve_url sample_urls base "1.ts" ≡ none))
    ⊎ ((r : Url) × (sample_urls.parse "1.ts" ≡ some r)
        × (((is_abs r ≡ true) × (resolve_url sample_urls base "1.ts" ≡ some (sample_urls.print r)))
            ⊎ ((u : Url) × (is_abs r ≡ false)
                × (resolve_url sample_urls base "1.ts" ≡ some (sample_urls.print u))
                × IsResolved sample_urls base "1.ts" r u)))
resolve_url-IsResolved_example = resolve_url-IsResolved sample_urls base "1.ts"

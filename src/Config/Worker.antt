-- ===== src/Config/Worker.antt =====
-- internal/config/config.go: `LoadWorkerConfig`.
use youtube_stream_tracker.Prelude.Int.{pos, ltb_ℤ, ℤ, leb_ℤ}
use youtube_stream_tracker.Model.{default_monitor_config, MonitorConfig}
use youtube_stream_tracker.Config.{
  ConfigLoadError, get_env_int64, second, must_be_positive, parse_failed, get_env_duration, refused,
  required, seconds_or, get_env, checked, is_empty, Loaded, Environment,
}
use youtube_stream_tracker.Prelude.{
  Bool, List, some, not, ℕ, none, or_else, Option, String, ◌∷◌, if◌then◌else◌, [], ◌&&◌, ◌*◌,
}

pub record WorkerConfig : Type 0 where
  pub monitor_id : String
  pub stream_url : String
  pub callback_url : String
  pub internal_api_key : String
  pub scheduled_start_time : Option ℕ
  pub waiting_mode_initial_interval : ℤ
  pub waiting_mode_delayed_interval : ℤ
  pub manifest_fetch_timeout : ℤ
  pub manifest_refresh_interval : ℤ
  pub segment_fetch_timeout : ℤ
  pub segment_max_bytes : ℤ
  pub analysis_interval : ℤ
  pub blackout_threshold : ℤ
  pub silence_threshold : ℤ
  pub silence_db_threshold : ℤ
  pub delay_threshold : ℤ
  pub metadata : Option String
  pub webhook_url : String
  pub webhook_signing_key : String
  pub http_proxy : String
  pub https_proxy : String
  pub ffmpeg_path : String
  pub ffprobe_path : String
  pub yt_dlp_path : String
  pub streamlink_path : String

unfoldable pub worker_values : Environment → WorkerConfig
worker_values env = record {
  monitor_id = get_env env "MONITOR_ID" "";
  stream_url = get_env env "STREAM_URL" "";
  callback_url = get_env env "CALLBACK_URL" "";
  internal_api_key = get_env env "INTERNAL_API_KEY" "";
  scheduled_start_time = none;
  waiting_mode_initial_interval =
      get_env_duration env "WAITING_MODE_INITIAL_INTERVAL" (pos (30 * second));
  waiting_mode_delayed_interval =
      get_env_duration env "WAITING_MODE_DELAYED_INTERVAL" (pos (10 * second));
  manifest_fetch_timeout = get_env_duration env "MANIFEST_FETCH_TIMEOUT" (pos (10 * second));
  manifest_refresh_interval = get_env_duration env "MANIFEST_REFRESH_INTERVAL" (pos (30 * second));
  segment_fetch_timeout = get_env_duration env "SEGMENT_FETCH_TIMEOUT" (pos (30 * second));
  segment_max_bytes = get_env_int64 env "SEGMENT_MAX_BYTES" (pos (10 * 1024 * 1024));
  analysis_interval = get_env_duration env "ANALYSIS_INTERVAL" (pos (10 * second));
  blackout_threshold = get_env_duration env "BLACKOUT_THRESHOLD" (pos (5 * second));
  silence_threshold = get_env_duration env "SILENCE_THRESHOLD" (pos (5 * second));
  silence_db_threshold = default_monitor_config.silence_db_threshold;
  delay_threshold = get_env_duration env "DELAY_THRESHOLD" (pos (300 * second));
  metadata = none;
  webhook_url = get_env env "WEBHOOK_URL" "";
  webhook_signing_key = get_env env "WEBHOOK_SIGNING_KEY" "";
  http_proxy = get_env env "HTTP_PROXY" "";
  https_proxy = get_env env "HTTPS_PROXY" "";
  ffmpeg_path = get_env env "FFMPEG_PATH" "ffmpeg";
  ffprobe_path = get_env env "FFPROBE_PATH" "ffprobe";
  yt_dlp_path = get_env env "YTDLP_PATH" "yt-dlp";
  streamlink_path = get_env env "STREAMLINK_PATH" "streamlink";
}

-- What CONFIG_JSON sets: only what is positive, and a decibel threshold that is not 0.
unfoldable pub apply_monitor_config : MonitorConfig → WorkerConfig → WorkerConfig
apply_monitor_config m cfg = record cfg {
  scheduled_start_time = or_else m.scheduled_start_time cfg.scheduled_start_time;
  analysis_interval = seconds_or m.check_interval_sec cfg.analysis_interval;
  blackout_threshold = seconds_or m.blackout_threshold_sec cfg.blackout_threshold;
  silence_threshold = seconds_or m.silence_threshold_sec cfg.silence_threshold;
  delay_threshold = seconds_or m.start_delay_tolerance_sec cfg.delay_threshold;
  silence_db_threshold =
      if leb_ℤ m.silence_db_threshold (pos 0) && leb_ℤ (pos 0) m.silence_db_threshold
      then cfg.silence_db_threshold
      else m.silence_db_threshold;
}

abbrev pub worker_tests : WorkerConfig → List (Bool × ConfigLoadError)
worker_tests cfg =
    (not (is_empty cfg.monitor_id), required "MONITOR_ID")
    ∷ (not (is_empty cfg.stream_url), required "STREAM_URL")
    ∷ (not (is_empty cfg.callback_url), required "CALLBACK_URL")
    ∷ (
      ltb_ℤ (pos 0) cfg.waiting_mode_initial_interval,
      must_be_positive "WAITING_MODE_INITIAL_INTERVAL",
    )
    ∷ (
      ltb_ℤ (pos 0) cfg.waiting_mode_delayed_interval,
      must_be_positive "WAITING_MODE_DELAYED_INTERVAL",
    )
    ∷ (ltb_ℤ (pos 0) cfg.manifest_refresh_interval, must_be_positive "MANIFEST_REFRESH_INTERVAL")
    ∷ (ltb_ℤ (pos 0) cfg.segment_max_bytes, must_be_positive "SEGMENT_MAX_BYTES")
    ∷ []

unfoldable pub check_worker_config : WorkerConfig → Loaded WorkerConfig
check_worker_config cfg = checked (worker_tests cfg) cfg

unfoldable pub load_metadata : Environment → WorkerConfig → Loaded WorkerConfig
load_metadata env cfg =
    if is_empty (env.getenv "METADATA_JSON")
    then check_worker_config cfg
    else elim (env.unmarshal_metadata (env.getenv "METADATA_JSON")) [
      | none ↦ refused (parse_failed "METADATA_JSON")
      | some m ↦ check_worker_config (record cfg { metadata = some m })
    ]

unfoldable pub load_worker_config : Environment → Loaded WorkerConfig
load_worker_config env =
    if is_empty (env.getenv "CONFIG_JSON")
    then load_metadata env (worker_values env)
    else elim (env.unmarshal_config (env.getenv "CONFIG_JSON")) [
      | none ↦ refused (parse_failed "CONFIG_JSON")
      | some m ↦ load_metadata env (apply_monitor_config m (worker_values env))
    ]

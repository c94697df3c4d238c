-- ===== src/Examples/Configs.antt =====
-- internal/config/config.go and internal/k8s/k8s.go at a concrete pod.
use youtube_stream_tracker.Config.Loading.{IsUsable}
use youtube_stream_tracker.Pods.{CreatePodParams, env_vars, key_vars}
use youtube_stream_tracker.Pods.Environment.{load_worker_config-intended, IsProvided, intended}
use youtube_stream_tracker.Model.{default_monitor_config}
use youtube_stream_tracker.Config.{
  loaded, Environment, get_env_parsed, get_env_int64, get_env, get_env_duration,
}
use youtube_stream_tracker.Config.Worker.{load_worker_config, worker_values, apply_monitor_config}
use youtube_stream_tracker.Prelude.{
  none, some, str_append, str_eq, List, String, All, [], ◌≡◌, refl, if◌then◌else◌, ◌∷◌, arith,
}

abbrev params : CreatePodParams
params = record {
  monitor_id = "m1";
  stream_url = "https://www.youtube.com/watch?v=abc";
  callback_url = "http://gateway:8080";
  internal_api_key = "";
  webhook_url = "https://example.com/hook";
  webhook_signing_key = "";
  config = default_monitor_config;
  metadata = some "{\"a\":1}";
  http_proxy = "";
  https_proxy = "";
  secrets_name = "keys";
  internal_api_key_name = "";
  webhook_signing_key_name = "sign";
  owner_uid = "u1";
  owner_name = "m1";
}

abbrev pub lookup : List (String × String) → String → String
lookup [] key = ""
lookup ((k, v) ∷ vs) key = let rest : String = lookup vs key in if str_eq key k then v else rest

abbrev pub variables : List (String × String)
variables =
    ("MONITOR_ID", "m1")
    ∷ ("STREAM_URL", "https://www.youtube.com/watch?v=abc")
    ∷ ("CALLBACK_URL", "http://gateway:8080")
    ∷ ("WEBHOOK_URL", "https://example.com/hook")
    ∷ ("CONFIG_JSON", "{}")
    ∷ ("INTERNAL_API_KEY", "internal-api-key of keys")
    ∷ ("WEBHOOK_SIGNING_KEY", "sign of keys")
    ∷ ("METADATA_JSON", "{\"a\":1}")
    ∷ []

abbrev environment : Environment
environment = record {
  getenv = lookup variables;
  atoi = λ s. none;
  parse_int = λ s. none;
  parse_bool = λ s. none;
  parse_duration = λ s. none;
  unmarshal_config = λ s. some default_monitor_config;
  unmarshal_metadata = λ s. some s;
}

abbrev secret : String → String → String
secret name key = str_append key (str_append " of " name)

intended-IsUsable : IsUsable (intended secret params (worker_values environment))
unfolding intended apply_monitor_config worker_values get_env get_env_parsed get_env_duration
    get_env_int64 default_monitor_config
intended-IsUsable = record {
  monitor_id_given = refl;
  stream_url_given = refl;
  callback_url_given = refl;
  initial_interval_pos = omega arith;
  delayed_interval_pos = omega arith;
  refresh_interval_pos = omega arith;
  max_bytes_pos = omega arith;
}

provided : All (IsProvided secret environment.getenv) (env_vars (λ m. "{}") params)
unfolding env_vars key_vars
provided = (refl, (refl, (refl, (refl, (refl, (refl, (refl, (refl, tt))))))))

load_worker_config-intended_example :
    load_worker_config environment ≡ loaded (intended secret params (worker_values environment))
load_worker_config-intended_example =
    load_worker_config-intended secret (λ m. "{}") environment params provided refl refl
      (refl, refl) intended-IsUsable

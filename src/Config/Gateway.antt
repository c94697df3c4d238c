-- ===== src/Config/Gateway.antt =====
-- internal/config/config.go: `LoadGatewayConfig`.
use youtube_stream_tracker.Prelude.Int.{pos, ℤ}
use youtube_stream_tracker.Config.{
  get_env_duration, second, get_env_duration_with_fallback, required, is_empty, get_env_bool,
  get_env, checked, Loaded, ConfigLoadError, get_env_int, Environment,
}
use youtube_stream_tracker.Prelude.{List, true, false, not, Bool, String, ◌∷◌, ◌*◌, []}

pub record GatewayConfig : Type 0 where
  pub port : ℤ
  pub environment : String
  pub api_key : String
  pub internal_api_key : String
  pub webhook_signing_key : String
  pub gateway_secrets_name : String
  pub gateway_internal_api_key_secret_key : String
  pub gateway_webhook_signing_key_secret_key : String
  pub reconcile_webhook_url : String
  pub pod_name : String
  pub namespace : String
  pub worker_image : String
  pub worker_image_tag : String
  pub in_cluster : Bool
  pub kube_config_path : String
  pub max_monitors : ℤ
  pub reconcile_on_boot : Bool
  pub reconcile_timeout : ℤ
  pub reconcile_interval : ℤ
  pub read_timeout : ℤ
  pub write_timeout : ℤ
  pub shutdown_timeout : ℤ

unfoldable pub gateway_values : Environment → GatewayConfig
gateway_values env = record {
  port = get_env_int env "PORT" (pos 8080);
  environment = get_env env "ENVIRONMENT" "development";
  api_key = get_env env "API_KEY" "";
  internal_api_key = get_env env "INTERNAL_API_KEY" "";
  webhook_signing_key = get_env env "WEBHOOK_SIGNING_KEY" "";
  gateway_secrets_name = get_env env "GATEWAY_SECRETS_NAME" "stream-monitor-secrets";
  gateway_internal_api_key_secret_key =
      get_env env "GATEWAY_INTERNAL_API_KEY_SECRET_KEY" "internal-api-key";
  gateway_webhook_signing_key_secret_key =
      get_env env "GATEWAY_WEBHOOK_SIGNING_KEY_SECRET_KEY" "webhook-signing-key";
  reconcile_webhook_url = get_env env "RECONCILIATION_WEBHOOK_URL" "";
  pod_name = get_env env "POD_NAME" "";
  namespace = get_env env "NAMESPACE" "default";
  worker_image = get_env env "WORKER_IMAGE" "stream-monitor-worker";
  worker_image_tag = get_env env "WORKER_IMAGE_TAG" "latest";
  in_cluster = get_env_bool env "IN_CLUSTER" false;
  kube_config_path = get_env env "KUBECONFIG" "";
  max_monitors = get_env_int env "MAX_MONITORS" (pos 50);
  reconcile_on_boot = get_env_bool env "RECONCILE_ON_BOOT" true;
  reconcile_timeout =
      get_env_duration_with_fallback env "GATEWAY_RECONCILE_TIMEOUT" "RECONCILE_TIMEOUT"
        (pos (30 * second));
  reconcile_interval = get_env_duration env "RECONCILE_INTERVAL" (pos (300 * second));
  read_timeout = get_env_duration env "READ_TIMEOUT" (pos (30 * second));
  write_timeout = get_env_duration env "WRITE_TIMEOUT" (pos (30 * second));
  shutdown_timeout = get_env_duration env "SHUTDOWN_TIMEOUT" (pos (30 * second));
}

-- The keys that must be given.
abbrev pub gateway_tests : GatewayConfig → List (Bool × ConfigLoadError)
gateway_tests cfg =
    (not (is_empty cfg.api_key), required "API_KEY")
    ∷ (not (is_empty cfg.internal_api_key), required "INTERNAL_API_KEY")
    ∷ (not (is_empty cfg.webhook_signing_key), required "WEBHOOK_SIGNING_KEY")
    ∷ []

unfoldable pub load_gateway_config : Environment → Loaded GatewayConfig
load_gateway_config env =
    let cfg : GatewayConfig = gateway_values env in checked (gateway_tests cfg) cfg

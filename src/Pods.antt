-- ===== src/Pods.antt =====
-- internal/k8s/k8s.go: the pods of workers. Kubernetes itself is a parameter.
pub mod Client
pub mod Environment
pub mod Readiness
use youtube_stream_tracker.Model.{MonitorConfig}
use youtube_stream_tracker.Prelude.{
  false, none, true, ℕ, str_eq, some, str_append, String, List, Bool, Option, ◌++◌, if◌then◌else◌,
  ◌∷◌, [],
}

pub data EnvValue : Type 0 where
  direct : String → EnvValue
  secret_key : (secret_name key : String) → EnvValue

pub record EnvVar : Type 0 where
  pub name : String
  pub value : EnvValue

pub record CreatePodParams : Type 0 where
  pub monitor_id : String
  pub stream_url : String
  pub callback_url : String
  pub internal_api_key : String
  pub webhook_url : String
  pub webhook_signing_key : String
  pub config : MonitorConfig
  pub metadata : Option String
  pub http_proxy : String
  pub https_proxy : String
  pub secrets_name : String
  pub internal_api_key_name : String
  pub webhook_signing_key_name : String
  pub owner_uid : String
  pub owner_name : String

pub record OwnerReference : Type 0 where
  pub api_version : String
  pub kind : String
  pub name : String
  pub uid : String
  pub block_owner_deletion : Bool
  pub controller : Bool

pub record Probe : Type 0 where
  pub path : String
  pub port : ℕ
  pub initial_delay_seconds : ℕ
  pub period_seconds : ℕ
  pub timeout_seconds : ℕ
  pub failure_threshold : ℕ

pub record SecurityContext : Type 0 where
  pub run_as_non_root : Bool
  pub run_as_user : ℕ
  pub run_as_group : ℕ
  pub read_only_root_filesystem : Bool
  pub allow_privilege_escalation : Bool
  pub drop_capabilities : List String

pub record Container : Type 0 where
  pub name : String
  pub image : String
  pub env : List EnvVar
  pub port : ℕ
  -- the volumes, each with its path
  pub volume_mounts : List (String × String)
  pub liveness_probe : Probe
  pub readiness_probe : Probe
  pub security_context : SecurityContext
  -- processor and memory
  pub requests : String × String
  pub limits : String × String

pub record WorkerPod : Type 0 where
  pub name : String
  pub namespace : String
  pub labels : List (String × String)
  pub owner_references : List OwnerReference
  pub termination_grace_period_seconds : ℕ
  pub restart_policy : String
  -- volumes that are empty directories
  pub volumes : List String
  pub containers : List Container

abbrev pub pod_name : String → String
pod_name monitor_id = str_append "stream-monitor-" monitor_id

abbrev pub name_or : String → String → String
name_or name default_name = if str_eq name "" then default_name else name

-- The keys, from the secret or in plain text.
unfoldable pub key_vars : CreatePodParams → List EnvVar
key_vars p =
    if str_eq p.secrets_name ""
    then record { name = "INTERNAL_API_KEY"; value = direct p.internal_api_key }
      ∷ record { name = "WEBHOOK_SIGNING_KEY"; value = direct p.webhook_signing_key }
      ∷ []
    else record {
      name = "INTERNAL_API_KEY";
      value = secret_key p.secrets_name (name_or p.internal_api_key_name "internal-api-key");
    }
      ∷ record {
        name = "WEBHOOK_SIGNING_KEY";
        value =
            secret_key p.secrets_name (name_or p.webhook_signing_key_name "webhook-signing-key");
      }
      ∷ []

-- A variable that is set only if there is a text for it.
abbrev pub var_if : (name text : String) → List EnvVar
var_if name text = if str_eq text "" then [] else record { name = name; value = direct text } ∷ []

abbrev pub metadata_vars : Option String → List EnvVar
metadata_vars none = []
metadata_vars (some m) = record { name = "METADATA_JSON"; value = direct m } ∷ []

-- `marshal` stands for `json.Marshal`, which does not fail on a configuration.
unfoldable pub env_vars : (marshal : MonitorConfig → String) → CreatePodParams → List EnvVar
env_vars marshal p =
    (record { name = "MONITOR_ID"; value = direct p.monitor_id }
      ∷ record { name = "STREAM_URL"; value = direct p.stream_url }
      ∷ record { name = "CALLBACK_URL"; value = direct p.callback_url }
      ∷ record { name = "WEBHOOK_URL"; value = direct p.webhook_url }
      ∷ record { name = "CONFIG_JSON"; value = direct (marshal p.config) }
      ∷ [])
    ++ (key_vars p
        ++ (var_if "HTTP_PROXY" p.http_proxy
            ++ (var_if "HTTPS_PROXY" p.https_proxy ++ metadata_vars p.metadata)))

unfoldable pub worker_container : (image : String) → List EnvVar → Container
worker_container image env = record {
  name = "monitor";
  image = image;
  env = env;
  port = 8081;
  volume_mounts = ("workdir", "/tmp/segments") ∷ ("tmp", "/tmp/worker") ∷ [];
  liveness_probe = record {
    path = "/healthz";
    port = 8081;
    initial_delay_seconds = 10;
    period_seconds = 30;
    timeout_seconds = 5;
    failure_threshold = 3;
  };
  readiness_probe = record {
    path = "/readyz";
    port = 8081;
    initial_delay_seconds = 5;
    period_seconds = 10;
    timeout_seconds = 5;
    failure_threshold = 3;
  };
  security_context = record {
    run_as_non_root = true;
    run_as_user = 1000;
    run_as_group = 1000;
    read_only_root_filesystem = true;
    allow_privilege_escalation = false;
    drop_capabilities = "ALL" ∷ [];
  };
  requests = ("100m", "256Mi");
  limits = ("500m", "512Mi");
}

unfoldable pub worker_pod :
    (namespace image : String) (marshal : MonitorConfig → String) → CreatePodParams → WorkerPod
worker_pod namespace image marshal p = record {
  name = pod_name p.monitor_id;
  namespace = namespace;
  labels = ("app", "stream-monitor") ∷ ("monitor-id", p.monitor_id) ∷ [];
  owner_references =
      record {
        api_version = "streamtracker.xpadev.net/v1alpha1";
        kind = "StreamMonitor";
        name = p.owner_name;
        uid = p.owner_uid;
        block_owner_deletion = true;
        controller = true;
      }
      ∷ [];
  termination_grace_period_seconds = 30;
  restart_policy = "Never";
  volumes = "workdir" ∷ "tmp" ∷ [];
  containers = worker_container image (env_vars marshal p) ∷ [];
}

-- ===== src/Pods/Environment.antt =====
-- internal/k8s/k8s.go and internal/config/config.go: a worker reads in its environment what the gateway has
-- written into its pod.
use youtube_stream_tracker.Prelude.Int.{negsuc, pos, leb_ℤ, ℤ}
use youtube_stream_tracker.Config.Loading.{check_worker_config-accepts, IsUsable}
use youtube_stream_tracker.Config.Worker.{
  check_worker_config, load_metadata, load_worker_config, worker_values, apply_monitor_config,
  WorkerConfig,
}
use youtube_stream_tracker.Model.{MonitorConfig}
use youtube_stream_tracker.Config.{to_int64, seconds_or, loaded, is_empty, Environment, get_env}
use youtube_stream_tracker.Pods.{
  var_if, metadata_vars, key_vars, name_or, env_vars, CreatePodParams, secret_key, EnvVar, direct,
  EnvValue,
}
use youtube_stream_tracker.Prelude.{
  arith, zero, suc, or_else, ℕ, ◌&&◌, ◌*◌, ap, ◌∙◌, ◌∷◌, [], inr, eq_iff, inl, none, some, false,
  true, sym, All-right, Bool, Option, All-left, Bool-cases, [], refl, ◌⊎◌, str_eq, if◌then◌else◌,
  All, String, ◌≡◌,
}

-- What a container reads: each variable's text, or the key of its secret.
abbrev pub value_of : (secret : String → String → String) → EnvValue → String
value_of secret (direct text) = text
value_of secret (secret_key name key) = secret name key

-- Kubernetes hands each variable to the container.
abbrev pub IsProvided : (secret : String → String → String) → (String → String) → EnvVar → Type 0
IsProvided secret getenv v = getenv v.name ≡ value_of secret v.value

-- The keys a worker is meant to have.
abbrev key_of :
    (secret : String → String → String)
    → CreatePodParams
    → (name default_name key : String) → String
key_of secret p name default_name key =
    if str_eq p.secrets_name "" then key else secret p.secrets_name (name_or name default_name)

abbrev with_pod :
    (monitor_id stream_url callback_url webhook_url internal_api_key webhook_signing_key : String)
    → Option String
    → WorkerConfig
    → WorkerConfig
with_pod monitor_id stream_url callback_url webhook_url internal_api_key webhook_signing_key m
      base =
    record base {
      monitor_id = monitor_id;
      stream_url = stream_url;
      callback_url = callback_url;
      webhook_url = webhook_url;
      internal_api_key = internal_api_key;
      webhook_signing_key = webhook_signing_key;
      metadata = m;
    }

-- A number of seconds as nanoseconds of 64 bits, where it is positive.
abbrev positive_seconds : ℤ → (otherwise : ℤ) → ℤ
positive_seconds (pos zero) otherwise = otherwise
positive_seconds (pos (suc n)) otherwise = to_int64 (suc n * 1_000_000_000)
positive_seconds (negsuc n) otherwise = otherwise

abbrev nonzero_level : ℤ → (otherwise : ℤ) → ℤ
nonzero_level (pos zero) otherwise = otherwise
nonzero_level (pos (suc n)) otherwise = pos (suc n)
nonzero_level (negsuc n) otherwise = negsuc n

-- What a monitor's configuration sets of a worker's.
abbrev with_monitor : MonitorConfig → WorkerConfig → WorkerConfig
with_monitor m base = record base {
  scheduled_start_time = elim m.scheduled_start_time [
    | none ↦ base.scheduled_start_time
    | some t ↦ some t
  ];
  analysis_interval = positive_seconds m.check_interval_sec base.analysis_interval;
  blackout_threshold = positive_seconds m.blackout_threshold_sec base.blackout_threshold;
  silence_threshold = positive_seconds m.silence_threshold_sec base.silence_threshold;
  silence_db_threshold = nonzero_level m.silence_db_threshold base.silence_db_threshold;
  delay_threshold = positive_seconds m.start_delay_tolerance_sec base.delay_threshold;
}

seconds_or-positive : (n d : ℤ) → seconds_or n d ≡ positive_seconds n d
unfolding seconds_or
seconds_or-positive (pos zero) d = refl
seconds_or-positive (pos (suc n)) d = ground arith
seconds_or-positive (negsuc n) d = ground arith

level-nonzero :
    (n d : ℤ) → (if leb_ℤ n (pos 0) && leb_ℤ (pos 0) n then d else n) ≡ nonzero_level n d
level-nonzero (pos zero) d = refl
level-nonzero (pos (suc n)) d = ground arith
level-nonzero (negsuc n) d = ground arith

start-set :
    (s d : Option ℕ) → or_else s d ≡ (elim s as (λ o. Option ℕ) [ none ↦ d | some t ↦ some t ])
start-set none d = refl
start-set (some t) d = refl

apply_monitor_config-with_monitor :
    (m : MonitorConfig) (base : WorkerConfig) → apply_monitor_config m base ≡ with_monitor m base
unfolding apply_monitor_config
apply_monitor_config-with_monitor m base =
    rw
      (
        start-set m.scheduled_start_time base.scheduled_start_time,
        seconds_or-positive m.check_interval_sec base.analysis_interval,
        seconds_or-positive m.blackout_threshold_sec base.blackout_threshold,
        seconds_or-positive m.silence_threshold_sec base.silence_threshold,
        seconds_or-positive m.start_delay_tolerance_sec base.delay_threshold,
        level-nonzero m.silence_db_threshold base.silence_db_threshold,
      )
      refl

-- What the worker of a pod is meant to run with: what the pod names, and else what `base` has.
unfoldable pub intended :
    (secret : String → String → String) → CreatePodParams → WorkerConfig → WorkerConfig
intended secret p base =
    with_pod p.monitor_id p.stream_url p.callback_url p.webhook_url
      (key_of secret p p.internal_api_key_name "internal-api-key" p.internal_api_key)
      (key_of secret p p.webhook_signing_key_name "webhook-signing-key" p.webhook_signing_key)
      p.metadata (with_monitor p.config base)

-- The metadata of a monitor is read back, and without metadata the variable is not set.
abbrev pub IsReadable : Environment → Option String → Type 0
IsReadable env none = is_empty (env.getenv "METADATA_JSON") ≡ true
IsReadable env (some m) = (is_empty m ≡ false) × (env.unmarshal_metadata m ≡ some m)

empty_or :
    (t : String) → (is_empty t ≡ true) ⊎ (is_empty t ≡ false) → (if is_empty t then "" else t) ≡ t
empty_or t (inl e) = rw e (sym ((eq_iff t "").0 e))
empty_or t (inr e) = rw e refl

get_env-plain :
    (env : Environment) (key text : String) → env.getenv key ≡ text → get_env env key "" ≡ text
unfolding get_env
get_env-plain env key text h = rw h (empty_or text (Bool-cases (is_empty text)))

module _ (secret : String → String → String) (marshal : MonitorConfig → String) (env : Environment)
    (p : CreatePodParams) (provided : All (IsProvided secret env.getenv) (env_vars marshal p)) where
  IsProvided-config : env.getenv "CONFIG_JSON" ≡ marshal p.config
  unfolding env_vars
  IsProvided-config = let (_, (_, (_, (_, (config, _))))) = provided in config

  IsProvided-keys : All (IsProvided secret env.getenv) (key_vars p)
  unfolding env_vars
  IsProvided-keys =
      let (_, (_, (_, (_, (_, rest))))) = provided in
      All-left (IsProvided secret env.getenv) (key_vars p) _ rest

  IsProvided-metadata : All (IsProvided secret env.getenv) (metadata_vars p.metadata)
  unfolding env_vars
  IsProvided-metadata =
      let (_, (_, (_, (_, (_, rest))))) = provided in
      let q : (v : EnvVar) → Type 0 = IsProvided secret env.getenv in
      All-right q (var_if "HTTPS_PROXY" p.https_proxy) _
        (All-right q (var_if "HTTP_PROXY" p.http_proxy) _ (All-right q (key_vars p) _ rest))

  by_secret :
      (b : Bool)
      → All (IsProvided secret env.getenv) (
          if b
          then record { name = "INTERNAL_API_KEY"; value = direct p.internal_api_key }
            ∷ record { name = "WEBHOOK_SIGNING_KEY"; value = direct p.webhook_signing_key }
            ∷ []
          else record {
            name = "INTERNAL_API_KEY";
            value = secret_key p.secrets_name (name_or p.internal_api_key_name "internal-api-key");
          }
            ∷ record {
              name = "WEBHOOK_SIGNING_KEY";
              value =
                  secret_key p.secrets_name
                    (name_or p.webhook_signing_key_name "webhook-signing-key");
            }
            ∷ [])
      → (env.getenv "INTERNAL_API_KEY" ≡ (
          if b
          then p.internal_api_key
          else secret p.secrets_name (name_or p.internal_api_key_name "internal-api-key")))
        × (env.getenv "WEBHOOK_SIGNING_KEY" ≡ (
            if b
            then p.webhook_signing_key
            else secret p.secrets_name (name_or p.webhook_signing_key_name "webhook-signing-key")))
  by_secret true (k, (w, _)) = (k, w)
  by_secret false (k, (w, _)) = (k, w)

  keys_read :
      (env.getenv "INTERNAL_API_KEY"
        ≡ key_of secret p p.internal_api_key_name "internal-api-key" p.internal_api_key)
      × (env.getenv "WEBHOOK_SIGNING_KEY"
          ≡ key_of secret p p.webhook_signing_key_name "webhook-signing-key" p.webhook_signing_key)
  unfolding key_vars
  keys_read = by_secret (str_eq p.secrets_name "") IsProvided-keys

  -- The configuration before its metadata is read.
  read_values :
      (m : Option String)
      → record (apply_monitor_config p.config (worker_values env)) { metadata = m }
        ≡ with_pod p.monitor_id p.stream_url p.callback_url p.webhook_url
            (key_of secret p p.internal_api_key_name "internal-api-key" p.internal_api_key)
            (key_of secret p p.webhook_signing_key_name "webhook-signing-key" p.webhook_signing_key)
            m
            (apply_monitor_config p.config (worker_values env))
  unfolding env_vars worker_values apply_monitor_config
  read_values m =
      let (e1, (e2, (e3, (e4, (e5, rest))))) = provided in
      rw
        (
          get_env-plain env "MONITOR_ID" p.monitor_id e1,
          get_env-plain env "STREAM_URL" p.stream_url e2,
          get_env-plain env "CALLBACK_URL" p.callback_url e3,
          get_env-plain env "WEBHOOK_URL" p.webhook_url e4,
          get_env-plain env "INTERNAL_API_KEY" _ keys_read.0,
          get_env-plain env "WEBHOOK_SIGNING_KEY" _ keys_read.1,
        )
        refl

  metadata_read :
      (m : Option String) (c : WorkerConfig)
      → All (IsProvided secret env.getenv) (metadata_vars m)
      → IsReadable env m
      → c.metadata ≡ none
      → load_metadata env c ≡ check_worker_config (record c { metadata = m })
  unfolding load_metadata
  metadata_read none c given absent e =
      rw absent (ap (λ m. check_worker_config (record c { metadata = m })) e)
  metadata_read (some m) c (given, _) (text, readable) e = rw (given, text, readable) refl

  -- If a worker's environment holds the variables of its pod, the pod's configuration and metadata are
  -- read back from their JSON, that of the configuration is not empty, without metadata METADATA_JSON is
  -- not set, and the configuration meant for the pod is usable, then the worker starts and runs with
  -- exactly that one: the pod's monitor, stream, callback, webhook, keys (from the secret, where there is
  -- one) and metadata, what the monitor's configuration sets, and its own defaults for the rest. The
  -- monitor's configuration sets the start time that it has, an interval or a threshold in seconds that is
  -- positive, as nanoseconds that wrap around in 64 bits, and a silence level that is not 0.
  pub load_worker_config-intended :
      is_empty (marshal p.config) ≡ false
      → env.unmarshal_config (marshal p.config) ≡ some p.config
      → IsReadable env p.metadata
      → IsUsable (intended secret p (worker_values env))
      → load_worker_config env ≡ loaded (intended secret p (worker_values env))
  unfolding load_worker_config intended worker_values apply_monitor_config
  load_worker_config-intended text readable metadata usable =
      let kept : WorkerConfig → WorkerConfig =
        with_pod p.monitor_id p.stream_url p.callback_url p.webhook_url
          (key_of secret p p.internal_api_key_name "internal-api-key" p.internal_api_key)
          (key_of secret p p.webhook_signing_key_name "webhook-signing-key" p.webhook_signing_key)
          p.metadata in
      let monitor = apply_monitor_config-with_monitor p.config (worker_values env) in
      rw (IsProvided-config, text, readable)
        (metadata_read p.metadata (apply_monitor_config p.config (worker_values env))
            IsProvided-metadata metadata refl
          ∙ ap check_worker_config (read_values p.metadata ∙ ap kept monitor)
          ∙ check_worker_config-accepts _ usable)

-- ===== src/Gateway/Boot.antt =====
-- cmd/gateway/main.go: the start of the gateway, up to the serving of requests. What the clients of
-- Kubernetes answer is a parameter.
use youtube_stream_tracker.Middleware.Keys.{true≢false}
use youtube_stream_tracker.Config.Loading.{not-false, checked-All}
use youtube_stream_tracker.Store.Objects.{Object}
use youtube_stream_tracker.Model.{Monitor}
use youtube_stream_tracker.Store.Queries.{get_active_monitors}
use youtube_stream_tracker.Prelude.Int.{pos, ltb_ℤ}
use youtube_stream_tracker.Gateway.{Keys}
use youtube_stream_tracker.Store.Api.{Server}
use youtube_stream_tracker.Config.Gateway.{
  gateway_values, gateway_tests, GatewayConfig, load_gateway_config,
}
use youtube_stream_tracker.Prelude.{
  eq_iff, sym, subst, String, arith, ◌∙◌, refl, false, List, Bool, Option, true, not, ◌≡◌,
  if◌then◌else◌, ◌≢◌, none, some,
}
use youtube_stream_tracker.Config.{is_empty, loaded, refused, Loaded, Environment, ConfigLoadError}
use youtube_stream_tracker.Reconcile.{Round, Cluster, reconcile_startup}

-- `log.Fatal`, by its cause.
pub data Fatal : Type 0 where
  logger_failed k8s_client_failed rest_config_failed dynamic_client_failed cache_not_synced : Fatal
  configuration_failed : ConfigLoadError → Fatal

-- Whether the steps of the start that are not the repository's own go well.
pub record Surroundings (api : Server) : Type 1 where
  pub logger_ready : Bool
  pub environment : Environment
  pub k8s_client_made : GatewayConfig → Bool
  pub rest_config_made : GatewayConfig → Bool
  pub dynamic_client_made : Bool
  pub cache_synced : api.S → Bool
  pub cluster : Cluster api
  pub oldest_first : List Monitor → List Monitor
  pub cache : api.S → List Object

-- The gateway that serves requests: `reconciled` is the pass on boot, if there was one, and
-- `reconciles_periodically` whether `RunPeriodic` runs beside it.
pub record Started (api : Server) : Type 0 where
  pub cfg : GatewayConfig
  pub keys : Keys
  pub reconciled : Option (Round api)
  pub reconciles_periodically : Bool
  pub server : api.S

pub data Boot (api : Server) : Type 0 where
  fatal : Fatal → Boot api
  serving : Started api → Boot api

module _ (api : Server) (around : Surroundings api) where
  unfoldable pub reconcile_on_boot : GatewayConfig → api.S → Option (Round api)
  reconcile_on_boot cfg s =
      if cfg.reconcile_on_boot
      then some (
          reconcile_startup api around.cluster
            (get_active_monitors around.oldest_first (around.cache s)) s)
      else none

  abbrev server_after : Option (Round api) → api.S → api.S
  server_after none s = s
  server_after (some r) s = r.server

  -- The watcher starts after the reconciliation, and the server last.
  unfoldable pub start_serving : GatewayConfig → api.S → Started api
  start_serving cfg s =
      let r : Option (Round api) = reconcile_on_boot cfg s in
      record {
        cfg = cfg;
        keys = record { api_key = cfg.api_key; internal_api_key = cfg.internal_api_key };
        reconciled = r;
        reconciles_periodically = ltb_ℤ (pos 0) cfg.reconcile_interval;
        server = server_after r s;
      }

  unfoldable pub start_clients : GatewayConfig → api.S → Boot api
  start_clients cfg s =
      if not (around.k8s_client_made cfg)
      then fatal k8s_client_failed
      else if not (around.rest_config_made cfg)
      then fatal rest_config_failed
      else if not around.dynamic_client_made
      then fatal dynamic_client_failed
      else if not (around.cache_synced s)
      then fatal cache_not_synced
      else serving (start_serving cfg s)

  unfoldable pub boot : api.S → Boot api
  boot s =
      if not around.logger_ready
      then fatal logger_failed
      else elim (load_gateway_config around.environment) [
        | refused x ↦ fatal (configuration_failed x)
        | loaded cfg ↦ start_clients cfg s
      ]

gateway_tests-keys :
    (env : Environment) (cfg : GatewayConfig)
    → load_gateway_config env ≡ loaded cfg
    → (is_empty cfg.api_key ≡ false) × (is_empty cfg.internal_api_key ≡ false)
unfolding load_gateway_config
gateway_tests-keys env cfg h =
    let ((a, (b, _)), e) =
      checked-All (gateway_tests (gateway_values env)) (gateway_values env) cfg h in
    subst (λ c. (is_empty c.api_key ≡ false) × (is_empty c.internal_api_key ≡ false)) e
      (not-false _ a, not-false _ b)

given-nonempty : (t : String) → is_empty t ≡ false → t ≢ ""
given-nonempty t h e = true≢false (sym ((eq_iff t "").1 e) ∙ h)

start_clients-by :
    (api : Server) (cfg : GatewayConfig) (k r d c : Bool) (st st' : Started api)
    → (if not k
        then fatal k8s_client_failed
        else if not r
        then fatal rest_config_failed
        else if not d
        then fatal dynamic_client_failed
        else if not c
        then fatal cache_not_synced
        else serving st)
      ≡ serving st'
    → (c ≡ true) × (st ≡ st')
start_clients-by api cfg false r d c st st' h = absurd grind arith
start_clients-by api cfg true false d c st st' h = absurd grind arith
start_clients-by api cfg true true false c st st' h = absurd grind arith
start_clients-by api cfg true true true false st st' h = absurd grind arith
start_clients-by api cfg true true true true st st' h = (refl, grind arith)

module _ (api : Server) (around : Surroundings api) (s : api.S) (st : Started api) where
  start_clients-serving :
      (cfg : GatewayConfig)
      → start_clients api around cfg s ≡ serving st
      → (around.cache_synced s ≡ true) × (start_serving api around cfg s ≡ st)
  unfolding start_clients
  start_clients-serving cfg h =
      start_clients-by api cfg (around.k8s_client_made cfg) (around.rest_config_made cfg)
        around.dynamic_client_made (around.cache_synced s) (start_serving api around cfg s) st h

  boot-by :
      (ready : Bool) (l : Loaded GatewayConfig)
      → (if not ready then fatal logger_failed else elim l [
        | refused x ↦ fatal (configuration_failed x)
        | loaded cfg ↦ start_clients api around cfg s
      ])
        ≡ serving st
      → (cfg : GatewayConfig) × (l ≡ loaded cfg) × (start_clients api around cfg s ≡ serving st)
  boot-by false l h = absurd grind arith
  boot-by true (refused x) h = absurd grind arith
  boot-by true (loaded cfg) h = (cfg, refl, h)

  server_after-by :
      (b : Bool) (r : Round api)
      → server_after api around (if b then some r else none) s ≡ (if b then r.server else s)
  server_after-by true r = refl
  server_after-by false r = refl

-- The keys are given, the cache is synced, and the state is the one that the reconciliation on boot leaves,
-- if there is one.
abbrev pub ServesFrom : (api : Server) → Surroundings api → api.S → Started api → Type 0
ServesFrom api around s t =
    (t.keys.api_key ≢ "")
    × (t.keys.internal_api_key ≢ "")
    × (around.cache_synced s ≡ true)
    × (t.server ≡ (
        if t.cfg.reconcile_on_boot
        then (reconcile_startup api around.cluster
            (get_active_monitors around.oldest_first (around.cache s)) s).server
        else s))

-- A gateway that serves requests has keys for the public API and for the internal one that are not
-- empty, has found its cache synced, and serves on the state that the reconciliation on boot left, where the
-- configuration asks for one, and otherwise on the state that it found.
pub boot-serving :
    (api : Server) (around : Surroundings api) (s : api.S) (st : Started api)
    → boot api around s ≡ serving st
    → ServesFrom api around s st
unfolding boot start_serving reconcile_on_boot
boot-serving api around s st h =
    let (cfg, got, up) =
      boot-by api around s st around.logger_ready (load_gateway_config around.environment) h in
    let (synced, same) = start_clients-serving api around s st cfg up in
    let (a, b) = gateway_tests-keys around.environment cfg got in
    subst (ServesFrom api around s) same (
      given-nonempty _ a,
      given-nonempty _ b,
      synced,
      server_after-by api around s st cfg.reconcile_on_boot _,
    )

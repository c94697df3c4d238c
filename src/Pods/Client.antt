-- ===== src/Pods/Client.antt =====
-- internal/k8s/k8s.go and reconcile.go: the calls for services and pods, and `CreateMonitorPod`.
use youtube_stream_tracker.Store.Writes.{update_pod_name}
use youtube_stream_tracker.Pods.{worker_pod, pod_name, WorkerPod, CreatePodParams}
use youtube_stream_tracker.Model.{MonitorConfig, Monitor}
use youtube_stream_tracker.Store.Api.{is_not_found, err, answered, Reply, Retry, Server}
use youtube_stream_tracker.Prelude.{
  true, str_append, ◌==◌, some, false, none, str_eq, List, Bool, Option, ℕ, String, if◌then◌else◌,
  ◌∷◌, [],
}

pub record ServicePort : Type 0 where
  pub name : String
  pub port : ℕ

pub record Service : Type 0 where
  pub name : String
  pub ports : List ServicePort

-- The typed client of Kubernetes, in the state of the API server. `none` is an error.
pub record PodApi (api : Server) : Type 1 where
  pub list_services : api.S → Option (List Service)
  -- the name of the pod that was created
  pub create_pod : WorkerPod → api.S → Option String × api.S
  pub delete_pod : (name : String) → api.S → Reply (Unit {0}) × api.S
  pub namespace : String
  pub worker_image : String
  pub marshal : MonitorConfig → String
  -- decimals
  pub format : ℕ → String

-- The port named http, or the first.
unfoldable pub http_port : ℕ → List ServicePort → ℕ
http_port first [] = first
http_port first (p ∷ ps) =
    let rest : ℕ = http_port first ps in if str_eq p.name "http" then p.port else rest

module _ (api : Server) (pods : PodApi api) where
  unfoldable pub base_url : List Service → Option String
  base_url [] = none
  base_url (service ∷ others) = elim service.ports [
    | [] ↦ none
    | p ∷ ps ↦
        if http_port p.port (p ∷ ps) == 0
        then none
        else some (
            str_append "http://"
              (str_append service.name (str_append ":" (pods.format (http_port p.port (p ∷ ps))))))
  ]

  -- `GetGatewayInternalBaseURL`
  unfoldable pub get_gateway_internal_base_url : api.S → Option String
  get_gateway_internal_base_url s = elim (pods.list_services s) [
    | none ↦ none
    | some xs ↦ base_url xs
  ]

  -- Without an owner's UID nothing is asked of the server.
  unfoldable pub create_worker_pod : CreatePodParams → api.S → Option String × api.S
  create_worker_pod p s =
      if str_eq p.owner_uid ""
      then (none, s)
      else pods.create_pod (worker_pod pods.namespace pods.worker_image pods.marshal p) s

  -- A pod that is gone already is no error.
  unfoldable pub delete_worker_pod : (monitor_id : String) → api.S → Bool × api.S
  delete_worker_pod monitor_id s =
      let (r, s') = pods.delete_pod (pod_name monitor_id) s in
      elim r [ answered t ↦ (true, s') | err is_not_found ↦ (true, s') | err x ↦ (false, s') ]

-- The keys of the gateway, which the handlers hand on.
pub record Keys : Type 0 where
  pub internal_api_key : String
  pub webhook_signing_key : String
  pub secrets_name : String
  pub internal_api_key_name : String
  pub webhook_signing_key_name : String

unfoldable pub pod_params : Keys → (gateway_base_url : String) → Monitor → CreatePodParams
pod_params keys gateway_base_url m = record {
  monitor_id = m.id;
  stream_url = m.stream_url;
  callback_url = gateway_base_url;
  internal_api_key = keys.internal_api_key;
  webhook_url = m.callback_url;
  webhook_signing_key = keys.webhook_signing_key;
  config = m.config;
  metadata = m.metadata;
  http_proxy = "";
  https_proxy = "";
  secrets_name = keys.secrets_name;
  internal_api_key_name = keys.internal_api_key_name;
  webhook_signing_key_name = keys.webhook_signing_key_name;
  owner_uid = m.uid;
  owner_name = m.id;
}

module _ (api : Server) (retry : Retry api.S) (pods : PodApi api) (keys : Keys) where
  -- The name of the pod is written down as well as it can be: an error of the store is logged.
  unfoldable pub create_monitor_pod : Monitor → api.S → Bool × api.S
  create_monitor_pod m s = elim (get_gateway_internal_base_url api pods s) [
    | none ↦ (false, s)
    | some url ↦
        let (r, s') = create_worker_pod api pods (pod_params keys url m) s in
        elim r [
          | none ↦ (false, s')
          | some name ↦ (true, (update_pod_name api retry m.id name s').1)
        ]
  ]

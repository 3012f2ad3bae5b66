-- ===== src/Kubernetes/Cluster.antt =====
-- src/kubernetes/mod.rs: `KubernetesEndpointDiscovery`, from its configuration to the end of its task.
-- The `kube` and `http` crates are behind an interface; the watcher of the pods is what it gives, an
-- error or an event at a time, and it is over when nothing more comes.
use state_proxy.Base.{
  ℕ, List, [], ◌∷◌, ◌++◌, Option, none, some, Text, codes, Result, ok, err, IterationOrder,
}
use state_proxy.Backend.Endpoint.{EndpointEvent, IpAddr}
use state_proxy.Backend.Channel.{Sender}
use state_proxy.Kubernetes.Pod.{PodEvent}
use state_proxy.Kubernetes.Monad
use state_proxy.Kubernetes.Monad.{Runtime, M, ◌>>◌, fail, no_client, watch_failed, stream_closed}
use state_proxy.Kubernetes.Runtime.{handle_pod_event}
pub mod Names

-- What the crates offer: addresses, the configuration of a client, and the client.
pub record Kube : Type 1 where
  pub Uri : Type 0
  pub Config : Type 0
  pub print : Uri → Text
  pub scheme : Uri → Option Text
  pub from_kubeconfig : Option Text → Result Text Config
  pub from_url : Uri → Config
  pub cluster_url : Config → Uri
  pub try_client : Config → Result Text (Unit {0})

pub data DiscoveryError : Type 0 where
  kubeconfig_error : Text → DiscoveryError
  no_scheme : DiscoveryError

module _ (parse_address : Text → Option IpAddr) where
  -- The loop of `run` and its end.
  unfoldable pub watch_pods : IterationOrder Text → List (Result Text PodEvent) → M (Unit {0})
  watch_pods order [] = fail stream_closed
  watch_pods order (err e ∷ items) = fail (watch_failed e)
  watch_pods order (ok event ∷ items) =
      handle_pod_event parse_address order event >> watch_pods order items

module _ (kube : Kube) where
  -- `KubernetesConfig`.
  pub data KubernetesConfig : Type 0 where
    kube_config : Option Text → KubernetesConfig
    explicit : kube.Uri → KubernetesConfig

  pub record KubernetesEndpointDiscovery : Type 0 where
    pub name : Text
    pub config : kube.Config
    pub namespace : Text

  abbrev kubeconfig : Result Text kube.Config → Result DiscoveryError kube.Config
  kubeconfig (ok config) = ok config
  kubeconfig (err e) = err (kubeconfig_error e)

  -- The `match` of `new`.
  unfoldable pub connection_parameters : KubernetesConfig → Result DiscoveryError kube.Config
  connection_parameters (kube_config context) = kubeconfig (kube.from_kubeconfig context)
  connection_parameters (explicit url) = elim (kube.scheme url) [
    | none ↦ err no_scheme
    | some _ ↦ ok (kube.from_url url)
  ]

  -- `unwrap_or_else(|| "default".to_owned())`.
  unfoldable pub namespace_or_default : Option Text → Text
  namespace_or_default none = codes "default"
  namespace_or_default (some namespace) = namespace

  -- The format of the name.
  unfoldable pub discovery_name : kube.Config → Text → Text
  discovery_name config namespace =
      codes "kubernetes@" ++ kube.print (kube.cluster_url config) ++ b'/' ∷ namespace

  abbrev pub with_config :
      Text → Result DiscoveryError kube.Config → Result DiscoveryError KubernetesEndpointDiscovery
  with_config namespace (err e) = err e
  with_config namespace (ok config) =
      ok (record { name = discovery_name config namespace; config = config; namespace = namespace })

  -- `new`.
  unfoldable pub new :
      KubernetesConfig → Option Text → Result DiscoveryError KubernetesEndpointDiscovery
  new config namespace = with_config (namespace_or_default namespace) (connection_parameters config)

  module _ (parse_address : Text → Option IpAddr) where
    -- `run`, with a new `KubernetesDiscoveryRuntime`.
    unfoldable pub run :
        IterationOrder Text
        → List (Result Text PodEvent)
        → KubernetesEndpointDiscovery
        → Sender EndpointEvent
        → Result Monad.Error (Unit {0}) × Runtime
    run order items this sender =
        let runtime : Runtime = record { sender = sender; known_pod_uids = [] } in
        elim (kube.try_client this.config) [
          | err e ↦ (err (no_client e), runtime)
          | ok _ ↦ watch_pods parse_address order items runtime
        ]

-- ===== src/Startup.antt =====
-- src/bin/main.rs: `run`, from the arguments to the end of the task that it blocks on. What `clap` read is
-- a record, the features that the program is built with are another. The `tokio` builder is two functions:
-- one that sets the number of threads and may panic, and one that makes the runtime and may fail.
use state_proxy.Base.{
  ℕ, Bool, true, false, List, [], ◌∷◌, Option, none, some, Text, codes, Outcome, returned, panicked,
  ◌>>=◌, Result, ok, err, if◌then◌else◌,
}
use state_proxy.Backend.Manager
use state_proxy.Backend.Manager.{ServiceManager}
use state_proxy.Backend.Discovery.{register_endpoint_discovery, RegistrationError}
use state_proxy.Protocol.Registry
use state_proxy.Protocol.Registry.{
  Protocol, ProtocolRegistry, RegistryError, default_capabilities, register,
}
use state_proxy.Kubernetes.Cluster
use state_proxy.Kubernetes.Cluster.{
  Kube, KubernetesConfig, kube_config, explicit, KubernetesEndpointDiscovery, DiscoveryError,
}
use state_proxy.Arguments.{worker_threads}
pub mod Started
mod Tests

pub record Features : Type 0 where
  pub discovery_kubernetes : Bool
  pub protocol_http : Bool
  pub protocol_ssh : Bool
  pub protocol_websockets : Bool
  pub handover : Bool

pub record ArgMatches : Type 0 where
  pub worker_threads : Option Text
  pub k8s_namespace : Option Text
  pub k8s_url : Option Text
  pub k8s_from_kubeconfig : Bool
  pub k8s_context : Option Text
  pub accept_http : Bool
  pub accept_ssh : Bool
  pub accept_websockets : Bool
  pub handover_socket : Option Text

pub data StartError : Type 0 where
  runtime_error : Text → StartError
  registry_error : RegistryError → StartError
  url_error : Text → StartError
  discovery_error : DiscoveryError → StartError
  registration_error : RegistrationError → StartError

-- The `?` of the source, with the conversion of the error.
abbrev pub attempt :
    {E A B : Type 0}
    → (E → StartError)
    → Result E A
    → (A → Result StartError B)
    → Result StartError B
attempt wrap (ok a) f = f a
attempt wrap (err e) f = err (wrap e)

-- `HttpProtocol::new`, with the capabilities that a protocol has by default.
unfoldable pub http_protocol : Protocol
http_protocol = record { name = codes "http"; capabilities = default_capabilities }

-- `register_http`.
unfoldable pub register_http :
    Features → ArgMatches → ProtocolRegistry → Result StartError ProtocolRegistry
register_http features args protocol_registry =
    if features.protocol_http
    then (if args.accept_http
        then attempt registry_error (register http_protocol protocol_registry) ok
        else ok protocol_registry)
    else ok protocol_registry

-- `register_ssh` and `register_websockets`: nothing is registered, asked for or not.
unfoldable pub register_ssh :
    Features → ArgMatches → ProtocolRegistry → Result StartError ProtocolRegistry
register_ssh features args protocol_registry =
    if features.protocol_ssh
    then (if args.accept_ssh then ok protocol_registry else ok protocol_registry)
    else ok protocol_registry

unfoldable pub register_websockets :
    Features → ArgMatches → ProtocolRegistry → Result StartError ProtocolRegistry
register_websockets features args protocol_registry =
    if features.protocol_websockets
    then (if args.accept_websockets then ok protocol_registry else ok protocol_registry)
    else ok protocol_registry

-- `init_handover`: the address that `handover::start` is called with.
unfoldable pub init_handover : Features → ArgMatches → Option Text
init_handover features args = if features.handover then args.handover_socket else none

module _ (kube : Kube) (try_into : Text → Result Text kube.Uri) where
  -- The choice of the configuration.
  unfoldable pub discovery_config : ArgMatches → Result StartError (Option (KubernetesConfig kube))
  discovery_config args =
      if args.k8s_from_kubeconfig
      then ok (some (kube_config args.k8s_context))
      else (elim args.k8s_url [
        | none ↦ ok none
        | some url ↦ attempt url_error (try_into url) (λ uri. ok (some (explicit uri)))
      ])

  -- `KubernetesEndpointDiscovery::new`, and its registration.
  unfoldable pub register_discovery :
      ArgMatches
      → ServiceManager
      → Option (KubernetesConfig kube)
      → Result StartError ServiceManager
  register_discovery args service_manager none = ok service_manager
  register_discovery args service_manager (some config) =
      attempt discovery_error (Cluster.new kube config args.k8s_namespace) (λ discovery.
        attempt registration_error (register_endpoint_discovery discovery.name service_manager) ok)

  -- `register_kubernetes`.
  unfoldable pub register_kubernetes :
      Features → ArgMatches → ServiceManager → Result StartError ServiceManager
  register_kubernetes features args service_manager =
      if features.discovery_kubernetes
      then attempt (λ e. e) (discovery_config args) (register_discovery args service_manager)
      else ok service_manager

  -- What the variables of the block that `run` blocks on hold at its end, and the address that the
  -- handover is started with.
  pub record Locals : Type 0 where
    pub protocol_registry : ProtocolRegistry
    pub service_manager : ServiceManager
    pub handover : Option Text

  -- The part behind the registration of the protocols.
  abbrev pub with_protocols : Features → ArgMatches → ProtocolRegistry → Result StartError Locals
  with_protocols features args protocol_registry =
      attempt (λ e. e) (register_kubernetes features args Manager.new)
        (λ service_manager. ok (record {
          protocol_registry = protocol_registry;
          service_manager = service_manager;
          handover = init_handover features args;
        }))

  -- The lines of the block up to its end.
  unfoldable pub set_up : Features → ArgMatches → Result StartError Locals
  set_up features args =
      attempt (λ e. e) (register_http features args Registry.new)
        (λ with_http.
          attempt (λ e. e) (register_ssh features args with_http)
            (λ with_ssh.
              attempt (λ e. e) (register_websockets features args with_ssh)
                (with_protocols features args)))

  -- The block: at its end it drops its variables and returns `Ok(())`.
  unfoldable pub start : Features → ArgMatches → Result StartError (Unit {0})
  start features args = attempt (λ e. e) (set_up features args) (λ locals. ok tt)

  -- `run`; the builder of the runtime gets the number of threads, if one is set.
  unfoldable pub run :
      (ℕ → Outcome (Unit {0}))
      → (Option ℕ → Result Text (Unit {0}))
      → Features
      → ArgMatches
      → Outcome (Result StartError (Unit {0}))
  run set_threads build features args = do
    threads ← worker_threads set_threads args.worker_threads
    returned (attempt runtime_error (build threads) (λ _. start features args))
